-- ===== src/Tests/Toy.antt =====
-- A concrete outside for the service, in which everything that `IsFaithful` states holds.
use mathlib.Core.Option
use text.Mathlib.TextLemmas.{cons-append, nil-append}
use native.Mathlib.Nat.{zero-add}
use finlabs_explore.Prelude.{
  ℕ, zero, suc, ◌+◌, ◌*◌, ◌/◌, ◌%◌, ◌≤◌, String, code, ◌≡◌, refl, ap, sym, ◌∙◌, true, [], ◌∷◌, ◌++◌,
  length, Option, none, some, ◌=ℕ=◌, if◌then◌else◌, arith, ◌==◌, eq_iff, Bool-cases, inl, inr,
}
use finlabs_explore.Js.Text.{◌+ₛ◌, lacks}
use finlabs_explore.Crypto.Packages.{Bytes, Primitives, IsStandard}
use finlabs_explore.World.Env.{Env, IsFaithful}

-- A number in binary, the lowest digit first; `fuel` is at least the number.
abbrev pub bits : (fuel n : ℕ) → String
bits zero n = ""
bits (suc fuel) n = elim n [
  | zero ↦ ""
  | suc m ↦ String.◌∷◌ (if suc m % 2 =ℕ= 0 then "0" else "1") (bits fuel (suc m / 2))
]

abbrev pub value : String → ℕ
value String.[] = 0
value (String.◌∷◌ c s) = (if code c =ℕ= 48 then 0 else 1) + 2 * value s

value-bits : (fuel n : ℕ) → n ≤ fuel → value (bits fuel n) ≡ n
value-bits zero n h = omega arith
value-bits (suc fuel) zero h = refl
value-bits (suc fuel) (suc m) h =
    let half : value (bits fuel (suc m / 2)) ≡ suc m / 2 =
      value-bits fuel (suc m / 2) (omega arith) in
    elim (Bool-cases (suc m % 2 =ℕ= 0)) [
      | inl even ↦ rw even (ground (arith, half))
      | inr odd ↦ rw odd (ground (arith, half))
    ]

-- A byte as so many strokes and a comma.
abbrev pub strokes : ℕ → String → String
strokes zero s = "," +ₛ s
strokes (suc n) s = "1" +ₛ strokes n s

abbrev pub encode : Bytes → String
encode [] = ""
encode (b ∷ bs) = strokes b (encode bs)

abbrev pub decode_from : ℕ → String → Option Bytes
decode_from k String.[] = if k =ℕ= 0 then some [] else none
decode_from k (String.◌∷◌ c s) =
    let more = decode_from (suc k) s in
    let next = Option.map (λ bs. k ∷ bs) (decode_from 0 s) in if code c =ℕ= 49 then more else next

decode_from-strokes :
    (n k : ℕ) (s : String) (bs : Bytes)
    → decode_from 0 s ≡ some bs
    → decode_from k (strokes n s) ≡ some ((n + k) ∷ bs)
decode_from-strokes zero k s bs h = rw (cons-append, nil-append) (rw (h, zero-add) refl)
decode_from-strokes (suc n) k s bs h =
    let rest = decode_from-strokes n (suc k) s bs h in
    rw (cons-append, nil-append) (rw rest (ap (λ x. some (x ∷ bs)) (omega arith)))

decode-encode : (bs : Bytes) → decode_from 0 (encode bs) ≡ some bs
decode-encode [] = refl
decode-encode (b ∷ bs) =
    decode_from-strokes b 0 (encode bs) bs (decode-encode bs)
    ∙ ap (λ x. some (x ∷ bs)) (omega arith)

strokes-lacks : (n : ℕ) (s : String) → lacks b'#' s ≡ true → lacks b'#' (strokes n s) ≡ true
unfolding lacks
strokes-lacks zero s h = rw (cons-append, nil-append) h
strokes-lacks (suc n) s h = rw (cons-append, nil-append) (strokes-lacks n s h)

encode-lacks : (bs : Bytes) → lacks b'#' (encode bs) ≡ true
encode-lacks [] = unfold lacks in refl
encode-lacks (b ∷ bs) = strokes-lacks b (encode bs) (encode-lacks bs)

-- A hash by length, keys that are their own public keys, and signatures that end in the key.
abbrev pub packages : Primitives
packages = record {
  sha256 = λ bs. length bs % 7 ∷ [];
  bytes_to_hex = encode;
  hex_to_bytes = decode_from 0;
  hex_error = λ s. "hex";
  base58_encode = encode;
  base58_decode = decode_from 0;
  public_key_of = λ k. k;
  sign = λ m k. m ++ k;
  verify = λ s m k. some (encode s == encode (m ++ k));
}

pub packages-IsStandard : IsStandard packages
packages-IsStandard = record {
  hex_inverse = decode-encode;
  base58_inverse = decode-encode;
  base58_plain = encode-lacks;
  signature_accepted = λ m k. ap some ((eq_iff (encode (m ++ k)) (encode (m ++ k))).1 refl);
}

abbrev pub parse_date : String → Option ℕ
parse_date String.[] = none
parse_date (String.◌∷◌ c s) = some (value s)

abbrev pub toy : Env
toy = record {
  packages = packages;
  uuid = λ n. bits n n;
  clock = λ n. n;
  iso = λ t. String.◌∷◌ "t" (bits t t);
  date_parse = parse_date;
  private_key = λ n. n ∷ [];
  validate_credential = λ c. true;
  credential_errors = λ c. "credential";
  validate_token = λ t. true;
  token_errors = λ t. "token";
}

pub toy-IsFaithful : IsFaithful toy
toy-IsFaithful = record {
  standard = packages-IsStandard;
  uuid_injective =
      λ m n h. sym (value-bits m m (omega arith)) ∙ ap value h ∙ value-bits n n (omega arith);
  clock_grows = λ m n h. h;
  date_parse-iso = λ t. ap some (value-bits t t (omega arith));
  iso-ne-empty = λ t h. cc h;
}
