-- ===== src/Js/Text.antt =====
-- What the service uses of JavaScript's texts: `startsWith` with `slice`, `split`, `replace`.
use Prim.Native.String
use Prim.Native.String.{[], ◌∷◌}
use text.Mathlib.TextLemmas.{nil-append, cons-append}
use finlabs_explore.Prelude.{
  ℕ, String, Char, code, ◌≡◌, refl, Option, none, some, ◌=ℕ=◌, arith, if◌then◌else◌, or_default,
  Bool, true, false, not, ◌&&◌, Bool-cases, inl, inr, ap,
}

infixr 65 ◌+ₛ◌
abbrev pub ◌+ₛ◌ : String → String → String
s +ₛ t = String.◌++◌ s t

-- `s.split(c)[0]`, with the separator by its code.
unfoldable pub before : ℕ → String → String
before k [] = []
before k (c ∷ s) = let rest = before k s in if code c =ℕ= k then [] else c ∷ rest

-- `s.startsWith(p) ? some of s.slice(p.length) : none`
unfoldable pub strip_prefix : String → String → Option String
strip_prefix [] s = some s
strip_prefix (c ∷ p) [] = none
strip_prefix (c ∷ p) (d ∷ s) =
    let rest = strip_prefix p s in if code c =ℕ= code d then rest else none

-- `s.replace(p, '')`: the first place where `p` stands is taken out.
unfoldable pub remove_first : String → String → String
unfolding strip_prefix
remove_first p [] = []
remove_first p (c ∷ s) =
    let later = c ∷ remove_first p s in or_default (strip_prefix p (c ∷ s)) later

pub strip_prefix-append : (p s : String) → strip_prefix p (p +ₛ s) ≡ some s
unfolding strip_prefix
strip_prefix-append [] s = rw nil-append
strip_prefix-append (c ∷ p) s = rw cons-append (ground (arith, strip_prefix-append p s))

-- No character of the text has this code.
unfoldable pub lacks : ℕ → String → Bool
lacks k [] = true
lacks k (c ∷ s) = not (code c =ℕ= k) && lacks k s

pub before-append : (k : ℕ) (s t : String) → lacks k s ≡ true → before k (s +ₛ t) ≡ s +ₛ before k t
unfolding before lacks
before-append k [] t h = rw (nil-append, nil-append) refl
before-append k (c ∷ s) t h = elim (Bool-cases (code c =ℕ= k)) [
  | inl stop ↦ let no : false ≡ true = rw stop at h in absurd (cc no)
  | inr go ↦
      let rest : lacks k s ≡ true = rw go at h in
      rw (cons-append, cons-append, go) (ap (◌∷◌ c) (before-append k s t rest))
]

pub lacks-append :
    (k : ℕ) (s t : String) → lacks k s ≡ true → lacks k t ≡ true → lacks k (s +ₛ t) ≡ true
unfolding lacks
lacks-append k [] t h h' = rw nil-append h'
lacks-append k (c ∷ s) t h h' = elim (Bool-cases (code c =ℕ= k)) [
  | inl stop ↦ let no : false ≡ true = rw stop at h in absurd (cc no)
  | inr go ↦ rw (cons-append, go) (lacks-append k s t (rw go at h) h')
]

pub remove_first-append : (c : Char) (p s : String) → remove_first (c ∷ p) ((c ∷ p) +ₛ s) ≡ s
unfolding remove_first
remove_first-append c p s = rw cons-append (ground (arith, strip_prefix-append p s))
