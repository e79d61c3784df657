-- ===== src/Base/Json.antt =====
-- The values of a JSONB column and of a decoded request, and Python's `dict` operations on them.
use Prim.Native.String.{String}
use mathlib.Core.Path.{◌≡◌, refl}
use mathlib.Core.Bool.{Bool, true, false, not}
use mathlib.Core.Option.{Option, none, some}
use native.Mathlib.Omega.{arith}
use text.Mathlib.TextEquality.{eq_iff}
use multi_tenant_agentic_wor.Base.Int.{ℤ, is_zero}
use multi_tenant_agentic_wor.Base.Tests.{◌==◌, if◌then◌else◌, string_eq}

mutual
  pub data Json : Type 0 where
    null : Json
    bool : Bool → Json
    num : ℤ → Json
    str : String → Json
    arr : Items → Json
    obj : Fields → Json

  pub data Items : Type 0 where
    nil : Items
    cons : Json → Items → Items

  pub data Fields : Type 0 where
    end : Fields
    field : String → Json → Fields → Fields

-- `d.get(k)`.
unfoldable pub get : String → Fields → Option Json
get k end = none
get k (field j v d) = if j == k then some v else get k d

-- `d[k] = v`.
unfoldable pub put : String → Json → Fields → Fields
put k v end = field k v end
put k v (field j w d) = if j == k then field j v d else field j w (put k v d)

-- `d.pop(k, None)`.
unfoldable pub pop : String → Fields → Fields
pop k end = end
pop k (field j v d) = let rest = pop k d in if j == k then rest else field j v rest

-- `bool(v)`.
abbrev pub truthy : Json → Bool
truthy null = false
truthy (bool b) = b
truthy (num n) = not (is_zero n)
truthy (str s) = not (s == "")
truthy (arr nil) = false
truthy (arr (cons x xs)) = true
truthy (obj end) = false
truthy (obj (field k v d)) = true

-- `v if isinstance(v, dict) else {}`, also where the key is missing.
abbrev pub as_dict : Option Json → Fields
as_dict (some (obj d)) = d
as_dict _ = end

-- `v == s` for a text `s`, and `v is True`.
abbrev pub is_text : Option Json → String → Bool
is_text (some (str t)) s = t == s
is_text _ s = false

abbrev pub is_true : Option Json → Bool
is_true (some (bool b)) = b
is_true _ = false

pub get-put :
    (j k : String) (v : Json) (d : Fields)
    → get j (put k v d) ≡ (if k == j then some v else get j d)
unfolding get put
get-put j k v end = refl
get-put j k v (field i w d) = ground (arith, eq_iff i k, eq_iff i j, eq_iff k j, get-put j k v d)

pub get-pop : (j k : String) (d : Fields) → get j (pop k d) ≡ (if k == j then none else get j d)
unfolding get pop
get-pop j k end = ground arith
get-pop j k (field i w d) = ground (arith, eq_iff i k, eq_iff i j, eq_iff k j, get-pop j k d)
