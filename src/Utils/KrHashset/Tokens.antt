-- ===== src/Utils/KrHashset/Tokens.antt =====
-- The pieces of a text with commas, as the loop of krutils/kr_hashset.c sees them.
use krproject.Base.{◌≡◌, refl, ap, ◌∙◌, sym, false, List, [], ◌∷◌, ◌++◌, ◌==◌, arith}
use mathlib.Core.List.{append-nil, append_assoc}
use krproject.Message.{Bytes}
use krproject.Utils.KrString.Env.{Lacks}
use krproject.Utils.KrHashset.{emit, tokens_loop}

-- words with commas between them
abbrev pub join : List Bytes → Bytes
join [] = []
join (w ∷ []) = w
join (w ∷ v ∷ ws) = w ++ b',' ∷ join (v ∷ ws)

-- words that are not empty and have no comma
abbrev pub IsWord : Bytes → Type 0
IsWord [] = ⊥
IsWord (x ∷ xs) = Lacks b',' (x ∷ xs)

abbrev pub AllWords : List Bytes → Type 0
AllWords [] = Unit
AllWords (w ∷ ws) = IsWord w × AllWords ws

tokens_loop-append :
    (piece w rest : Bytes)
    → Lacks b',' w
    → tokens_loop piece (w ++ rest) ≡ tokens_loop (piece ++ w) rest
unfolding tokens_loop
tokens_loop-append piece [] rest h = ap (λ u. tokens_loop u rest) (sym (append-nil piece))
tokens_loop-append piece (x ∷ w) rest h =
    let e : (x == b',') ≡ false = ground (arith, h) in
    rw e (
      tokens_loop-append (piece ++ x ∷ []) w rest (ground (arith, h))
      ∙ ap (λ u. tokens_loop u rest) (append_assoc piece (x ∷ []) w))

word-Lacks : (w : Bytes) → IsWord w → Lacks b',' w
word-Lacks [] h = refl
word-Lacks (x ∷ xs) h = h

emit-word : (w : Bytes) (ts : List Bytes) → IsWord w → emit w ts ≡ w ∷ ts
emit-word [] ts h = absurd h
emit-word (x ∷ xs) ts h = refl

-- the tokens of words with commas between them are the words
pub tokens-join : (ws : List Bytes) → AllWords ws → tokens_loop [] (join ws) ≡ ws
unfolding tokens_loop
tokens-join [] h = refl
tokens-join (w ∷ []) h =
    ap (tokens_loop []) (sym (append-nil w))
    ∙ tokens_loop-append [] w [] (word-Lacks w h.0)
    ∙ emit-word w [] h.0
tokens-join (w ∷ v ∷ ws) h =
    tokens_loop-append [] w (b',' ∷ join (v ∷ ws)) (word-Lacks w h.0)
    ∙ emit-word w _ h.0
    ∙ ap (◌∷◌ w) (tokens-join (v ∷ ws) h.1)
