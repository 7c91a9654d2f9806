-- ===== src/Json.antt =====
-- JSON values, and `canonical`, which standin-service/src/ledger.ts and credentials.ts declare word for
-- word alike and app/src/lib/crypto.ts repeats as `canonicalJson`: keys sorted, no spaces.
pub mod Order
use Prim.Native.String
use finlabs_explore.Prelude.{
  ℕ, ◌+◌, ◌/◌, ◌%◌, String, Char, code, Bool, true, false, Option, none, some, List, [], ◌∷◌, ltb,
  ◌=ℕ=◌, ◌==◌, if◌then◌else◌, get_or,
}
use finlabs_explore.Js.Text.{◌+ₛ◌}
use Order.{key_le}

-- A number is the text that JSON.stringify prints for it. An object's fields stand in the order in which
-- they were written.
mutual
  pub data Json : Type 0 where
    null : Json
    bool : Bool → Json
    number : String → Json
    text : String → Json
    arr : Items → Json
    obj : Fields → Json

  pub data Items : Type 0 where
    nil : Items
    cons : Json → Items → Items

  pub data Fields : Type 0 where
    end : Fields
    field : String → Json → Fields → Fields

-- An object read, `o[k]`.
unfoldable pub field_of : String → Fields → Option Json
field_of k end = none
field_of k (field j v fs) = if j == k then some v else field_of k fs

-- An object written, `{ ...o, [k]: v }`: a known key keeps its place.
unfoldable pub set_field : String → Json → Fields → Fields
set_field k v end = field k v end
set_field k v (field j w fs) = if j == k then field j v fs else field j w (set_field k v fs)

-- `{ ...base, ...more }`
unfoldable pub spread : Fields → Fields → Fields
unfolding set_field
spread base end = base
spread base (field k v more) = spread (set_field k v base) more

unfoldable pub items_of : List Json → Items
items_of [] = nil
items_of (x ∷ xs) = cons x (items_of xs)

unfoldable pub texts : List String → Items
texts [] = nil
texts (x ∷ xs) = cons (text x) (texts xs)

-- A hexadecimal digit in lower case.
hex_digit : ℕ → String
hex_digit n =
    get_or
      ("0" ∷ "1" ∷ "2" ∷ "3" ∷ "4" ∷ "5" ∷ "6" ∷ "7" ∷ "8" ∷ "9" ∷ "a" ∷ "b" ∷ "c" ∷ "d" ∷ "e" ∷ "f"
        ∷ [])
      n ""

-- JSON.stringify of one character of a text.
quote_char : Char → String
quote_char c =
    let k = code c in
    if k =ℕ= 34
    then "\\\""
    else if k =ℕ= 92
    then "\\\\"
    else if k =ℕ= 8
    then "\\b"
    else if k =ℕ= 9
    then "\\t"
    else if k =ℕ= 10
    then "\\n"
    else if k =ℕ= 12
    then "\\f"
    else if k =ℕ= 13
    then "\\r"
    else if ltb k 32
    then "\\u00" +ₛ (hex_digit (k / 16) +ₛ hex_digit (k % 16))
    else String.◌∷◌ c String.[]

quote_chars : String → String
quote_chars String.[] = "\""
quote_chars (String.◌∷◌ c s) = quote_char c +ₛ quote_chars s

-- JSON.stringify of a text.
unfoldable pub quote : String → String
unfolding quote_chars quote_char hex_digit
quote s = "\"" +ₛ quote_chars s

-- `xs.join(',')`
unfoldable pub join : List String → String
join [] = ""
join (x ∷ []) = x
join (x ∷ y ∷ xs) = x +ₛ ("," +ₛ join (y ∷ xs))

-- `Object.keys(value).sort()`, each key beside the text of its value.
unfoldable pub insert_key : String → String → List (String × String) → List (String × String)
insert_key k v [] = (k, v) ∷ []
insert_key k v ((j, w) ∷ l) = if key_le k j then (k, v) ∷ (j, w) ∷ l else (j, w) ∷ insert_key k v l

unfoldable pub sort_keys : List (String × String) → List (String × String)
unfolding insert_key
sort_keys [] = []
sort_keys ((k, v) ∷ l) = insert_key k v (sort_keys l)

unfoldable pub entries : List (String × String) → List String
unfolding quote
entries [] = []
entries ((k, v) ∷ l) = (quote k +ₛ (":" +ₛ v)) ∷ entries l

unfoldable mutual
  pub canonical : Json → String
  canonical null = "null"
  canonical (bool true) = "true"
  canonical (bool false) = "false"
  canonical (number n) = n
  canonical (text s) = quote s
  canonical (arr xs) = "[" +ₛ (join (canonical_items xs) +ₛ "]")
  canonical (obj fs) = "{" +ₛ (join (entries (sort_keys (canonical_fields fs))) +ₛ "}")

  pub canonical_items : Items → List String
  canonical_items nil = []
  canonical_items (cons x xs) = canonical x ∷ canonical_items xs

  pub canonical_fields : Fields → List (String × String)
  canonical_fields end = []
  canonical_fields (field k v fs) = (k, canonical v) ∷ canonical_fields fs
