-- ===== src/Json.antt =====
-- JSON values, as `JSON.parse` returns them. A number is kept as the text that `String` prints of
-- it. `builtin` is a function or object that plain objects inherit from `Object.prototype`.
use deedlit_dev.Base.{
  ◌≡◌, refl, Bool, Option, none, some, arith, if◌then◌else◌, Text, text_eq, text_eq_iff,
}

mutual
  pub data Json : Type 0 where
    null : Json
    bool : Bool → Json
    num : Text → Json
    str : Text → Json
    arr : Items → Json
    obj : Fields → Json
    builtin : Text → Json

  pub data Items : Type 0 where
    nil : Items
    cons : Json → Items → Items

  pub data Fields : Type 0 where
    end : Fields
    field : Text → Json → Fields → Fields

-- An own property of an object.
unfoldable pub own : Text → Fields → Option Json
own k end = none
own k (field j v fs) = if text_eq j k then some v else own k fs

-- `o[k] = v` where `v` goes to an own property: in place, or behind the others.
unfoldable pub put : Text → Json → Fields → Fields
put k v end = field k v end
put k v (field j w fs) = if text_eq j k then field j v fs else field j w (put k v fs)

unfoldable pub push_item : Json → Items → Items
push_item v nil = cons v nil
push_item v (cons w vs) = cons w (push_item v vs)

pub own-put :
    (k j : Text) (v : Json) (fs : Fields)
    → own j (put k v fs) ≡ (if text_eq k j then some v else own j fs)
unfolding own put
own-put k j v end = refl
own-put k j v (field i w fs) =
    ground (arith, text_eq_iff k j, text_eq_iff i k, text_eq_iff i j, own-put k j v fs)

-- `o.k` on any value: only plain objects have own properties.
unfoldable pub prop : Text → Json → Option Json
unfolding own
prop k (obj fs) = own k fs
prop k _ = none

-- `o.j ?? o.k`: the second where the first is absent or null.
unfoldable pub nullish : Option Json → Option Json → Option Json
nullish none d = d
nullish (some null) d = d
nullish (some v) d = some v

-- `typeof v === "string" ? v : null`.
unfoldable pub as_string : Option Json → Option Text
as_string (some (str t)) = some t
as_string _ = none
