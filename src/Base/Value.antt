-- ===== src/Base/Value.antt =====
-- JavaScript values of type `unknown`, as `JSON.parse` and the untyped configurations hold them.
-- `N` is the type of numbers. A property of a value that has none of that name is `undefined`.
use Prim.Native.String.{String}
use mathlib.Core.Bool.{Bool, true, false}
use mathlib.Core.List.{List, [], ◌∷◌}
use platform_rally_extension.Base.Tests.{if◌then◌else◌, ◌==◌, Same-text}

mutual
  pub data Value (N : Type 0) : Type 0 where
    undefined null : Value N
    boolean : Bool → Value N
    number : N → Value N
    text : String → Value N
    array : Items N → Value N
    object : Fields N → Value N

  pub data Items (N : Type 0) : Type 0 where
    nil : Items N
    cons : Value N → Items N → Items N

  pub data Fields (N : Type 0) : Type 0 where
    end : Fields N
    field : String → Value N → Fields N → Fields N

module _ {N : Type 0} where
  abbrev pub items : Items N → List (Value N)
  items nil = []
  items (cons v vs) = v ∷ items vs

  abbrev pub get_field : String → Fields N → Value N
  get_field k end = undefined
  get_field k (field j v fs) = if j == k then v else get_field k fs

  -- `v[k]` for a `v` that is neither `null` nor `undefined`, and `v?.[k]` for any `v`.
  abbrev pub prop : String → Value N → Value N
  prop k (object fs) = get_field k fs
  prop k _ = undefined

  -- `!!v && typeof v === "object"`
  abbrev pub is_object : Value N → Bool
  is_object (array vs) = true
  is_object (object fs) = true
  is_object _ = false
