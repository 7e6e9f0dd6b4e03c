-- ===== src/Base/Json.antt =====
-- `serde_json::Value`. An object keeps its members in the order of their keys, as the map of
-- `serde_json` does, so that equal objects are equal lists. A number outside `u64` is its text.
use Prim.Native.Nat.{ℕ}
use mathlib.Core.Path.{◌≡◌, refl, ap}
use mathlib.Core.Bool.{Bool, true, false, ◌&&◌}
use mathlib.Core.Option.{Option, none, some}
use native.Mathlib.Omega.{arith}
use hypercarry.Base.Tests.{◌==◌, if◌then◌else◌, and_true}
use hypercarry.Base.Text.{Text, text_eq, text_eq_sound, text_eq_refl}

mutual
  pub data Json : Type 0 where
    null : Json
    boolean : Bool → Json
    unsigned : ℕ → Json
    number : Text → Json
    text : Text → Json
    array : Elements → Json
    object : Members → Json

  pub data Elements : Type 0 where
    nil : Elements
    cons : Json → Elements → Elements

  pub data Members : Type 0 where
    end : Members
    member : Text → Json → Members → Members

abbrev pub bool_eq : Bool → Bool → Bool
bool_eq true true = true
bool_eq false false = true
bool_eq _ _ = false

-- `==` of values.
unfoldable mutual
  pub json_eq : Json → Json → Bool
  json_eq null null = true
  json_eq (boolean a) (boolean b) = bool_eq a b
  json_eq (unsigned a) (unsigned b) = a == b
  json_eq (number a) (number b) = text_eq a b
  json_eq (text a) (text b) = text_eq a b
  json_eq (array a) (array b) = elements_eq a b
  json_eq (object a) (object b) = members_eq a b
  json_eq _ _ = false

  pub elements_eq : Elements → Elements → Bool
  elements_eq nil nil = true
  elements_eq (cons x xs) (cons y ys) = json_eq x y && elements_eq xs ys
  elements_eq _ _ = false

  pub members_eq : Members → Members → Bool
  members_eq end end = true
  members_eq (member k x xs) (member j y ys) = text_eq k j && json_eq x y && members_eq xs ys
  members_eq _ _ = false

mutual
  unfolding json_eq elements_eq members_eq

  pub json_eq_sound : (a b : Json) → json_eq a b ≡ true → a ≡ b
  json_eq_sound null b h = ground arith
  json_eq_sound (boolean x) b h = ground arith
  json_eq_sound (unsigned x) b h = ground arith
  json_eq_sound (number x) (number y) h = ap number (text_eq_sound x y h)
  json_eq_sound (text x) (text y) h = ap text (text_eq_sound x y h)
  json_eq_sound (array x) (array y) h = ap array (elements_eq_sound x y h)
  json_eq_sound (object x) (object y) h = ap object (members_eq_sound x y h)
  json_eq_sound _ _ h = ground arith

  pub elements_eq_sound : (a b : Elements) → elements_eq a b ≡ true → a ≡ b
  elements_eq_sound nil nil h = refl
  elements_eq_sound (cons x xs) (cons y ys) h =
      ground (arith, json_eq_sound x y, elements_eq_sound xs ys)
  elements_eq_sound _ _ h = ground arith

  pub members_eq_sound : (a b : Members) → members_eq a b ≡ true → a ≡ b
  members_eq_sound end end h = refl
  members_eq_sound (member k x xs) (member j y ys) h =
      let (front, same_rest) = and_true (text_eq k j && json_eq x y) (members_eq xs ys) h in
      let (same_key, same_value) = and_true (text_eq k j) (json_eq x y) front in
      let key = text_eq_sound k j same_key in
      let value = json_eq_sound x y same_value in
      let tail = members_eq_sound xs ys same_rest in λ i. member (key i) (value i) (tail i)
  members_eq_sound _ _ h = ground arith

mutual
  unfolding json_eq elements_eq members_eq

  pub json_eq_refl : (a : Json) → json_eq a a ≡ true
  json_eq_refl null = refl
  json_eq_refl (boolean true) = refl
  json_eq_refl (boolean false) = refl
  json_eq_refl (unsigned x) = ground arith
  json_eq_refl (number x) = text_eq_refl x
  json_eq_refl (text x) = text_eq_refl x
  json_eq_refl (array x) = elements_eq_refl x
  json_eq_refl (object x) = members_eq_refl x

  pub elements_eq_refl : (a : Elements) → elements_eq a a ≡ true
  elements_eq_refl nil = refl
  elements_eq_refl (cons x xs) = ground (arith, json_eq_refl x, elements_eq_refl xs)

  pub members_eq_refl : (a : Members) → members_eq a a ≡ true
  members_eq_refl end = refl
  members_eq_refl (member k x xs) =
      ground (arith, text_eq_refl k, json_eq_refl x, members_eq_refl xs)

abbrev find_member : Text → Members → Option Json
find_member key end = none
find_member key (member k value rest) = if text_eq k key then some value else find_member key rest

-- `Value::get`, and the index `value[key]`, which is null where there is none.
unfoldable pub get : Json → Text → Option Json
get (object members) key = find_member key members
get _ key = none

unfoldable pub get_or_null : Json → Text → Json
unfolding get
get_or_null value key = elim (get value key) [ none ↦ null | some found ↦ found ]

-- `Value::as_str`, `as_u64` and `as_array`.
abbrev pub as_str : Json → Option Text
as_str (text s) = some s
as_str _ = none

abbrev pub as_u64 : Json → Option ℕ
as_u64 (unsigned n) = some n
as_u64 _ = none

abbrev pub as_array : Json → Option Elements
as_array (array xs) = some xs
as_array _ = none
