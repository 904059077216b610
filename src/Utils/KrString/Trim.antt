-- ===== src/Utils/KrString/Trim.antt =====
-- What `kr_string_alltrim` of krutils/kr_string.c leaves of a string.
use krproject.Base.{
  ℕ, ◌≡◌, refl, ap, ◌∙◌, true, false, [], ◌∷◌, ◌++◌, all, Bool-cases, inl, inr, ∷-eq,
}
use krproject.Message.{Bytes}
use krproject.Utils.KrString.{is_space, keep_before, string_ltrim, string_rtrim, string_alltrim}

abbrev pub Blank : Bytes → Type 0
Blank xs = all is_space xs ≡ true

-- the first byte, and the last one, is no blank
abbrev pub StartsInk : Bytes → Type 0
StartsInk [] = Unit
StartsInk (x ∷ xs) = is_space x ≡ false

abbrev pub EndsInk : Bytes → Type 0
EndsInk [] = Unit
EndsInk (x ∷ []) = is_space x ≡ false
EndsInk (x ∷ y ∷ ys) = EndsInk (y ∷ ys)

-- The string is the trimmed one between blanks.
pub record IsTrimmed (s trimmed : Bytes) : Type 0 where
  pub before : Bytes
  pub after : Bytes
  pub whole : s ≡ before ++ (trimmed ++ after)
  pub blank_before : Blank before
  pub blank_after : Blank after
  pub starts : StartsInk trimmed
  pub ends : EndsInk trimmed

record TrimmedRight (s t : Bytes) : Type 0 where
  after : Bytes
  whole : s ≡ t ++ after
  blank : Blank after
  ends : EndsInk t

record TrimmedLeft (s t : Bytes) : Type 0 where
  before : Bytes
  whole : s ≡ before ++ t
  blank : Blank before
  starts : StartsInk t
  ends : EndsInk s → EndsInk t

keep-TrimmedRight :
    (x : ℕ) (xs t : Bytes) → TrimmedRight xs t → TrimmedRight (x ∷ xs) (keep_before x t)
keep-TrimmedRight x xs [] r = elim (Bool-cases (is_space x)) [
  | inl e ↦ rw e (record {
    after = x ∷ r.after;
    whole = ∷-eq refl r.whole;
    blank = rw (e, r.blank) refl;
    ends = tt;
  })
  | inr e ↦ rw e (record { after = r.after; whole = ∷-eq refl r.whole; blank = r.blank; ends = e })
]
keep-TrimmedRight x xs (y ∷ ys) r = record {
  after = r.after;
  whole = ∷-eq refl r.whole;
  blank = r.blank;
  ends = r.ends;
}

string_rtrim-TrimmedRight : (s : Bytes) → TrimmedRight s (string_rtrim s)
unfolding string_rtrim
string_rtrim-TrimmedRight [] = record { after = []; whole = refl; blank = refl; ends = tt }
string_rtrim-TrimmedRight (x ∷ xs) = keep-TrimmedRight x xs _ (string_rtrim-TrimmedRight xs)

ends_tail : (x : ℕ) (xs : Bytes) → EndsInk (x ∷ xs) → EndsInk xs
ends_tail x [] h = tt
ends_tail x (y ∷ ys) h = h

string_ltrim-TrimmedLeft : (s : Bytes) → TrimmedLeft s (string_ltrim s)
unfolding string_ltrim
string_ltrim-TrimmedLeft [] = record {
  before = [];
  whole = refl;
  blank = refl;
  starts = tt;
  ends = λ h. h;
}
string_ltrim-TrimmedLeft (x ∷ xs) = elim (Bool-cases (is_space x)) [
  | inl e ↦
      let r = string_ltrim-TrimmedLeft xs in
      rw e (record {
        before = x ∷ r.before;
        whole = ∷-eq refl r.whole;
        blank = rw (e, r.blank) refl;
        starts = r.starts;
        ends = λ h. r.ends (ends_tail x xs h);
      })
  | inr e ↦ rw e (record { before = []; whole = refl; blank = refl; starts = e; ends = λ h. h })
]

pub append_assoc : (xs ys zs : Bytes) → ((xs ++ ys) ++ zs) ≡ (xs ++ (ys ++ zs))
append_assoc [] ys zs = refl
append_assoc (x ∷ xs) ys zs = ∷-eq refl (append_assoc xs ys zs)

-- Trimming takes the blanks from both ends of a string, and nothing else.
pub string_alltrim-IsTrimmed : (s : Bytes) → IsTrimmed s (string_alltrim s)
unfolding string_alltrim
string_alltrim-IsTrimmed s =
    let r = string_rtrim-TrimmedRight s in
    let l = string_ltrim-TrimmedLeft (string_rtrim s) in
    record {
      before = l.before;
      after = r.after;
      whole =
          r.whole
          ∙ ap (λ xs. xs ++ r.after) l.whole
          ∙ append_assoc l.before (string_ltrim (string_rtrim s)) r.after;
      blank_before = l.blank;
      blank_after = r.blank;
      starts = l.starts;
      ends = l.ends r.ends;
    }
