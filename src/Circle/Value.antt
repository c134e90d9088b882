-- ===== src/Circle/Value.antt =====
-- `serde_json::Value` and its accessors `get`, index and `as_str`, as far as the source calls them.
use miden_usdcx.Prelude.{String, Option, none, some, if◌then◌else◌, str_eq}

mutual
  pub data Json : Type 0 where
    null : Json
    bool : Json
    num : Json
    str : String → Json
    arr : Items → Json
    obj : Fields → Json

  pub data Items : Type 0 where
    nil : Items
    cons : Json → Items → Items

  pub data Fields : Type 0 where
    end : Fields
    field : String → Json → Fields → Fields

unfoldable pub lookup : String → Fields → Option Json
lookup k end = none
lookup k (field j v fs) = if str_eq j k then some v else lookup k fs

-- `value.get(key)`
unfoldable pub get : String → Json → Option Json
unfolding lookup
get k (obj fs) = lookup k fs
get k _ = none

-- `value.get(0)`
unfoldable pub get_first : Json → Option Json
get_first (arr (cons v vs)) = some v
get_first _ = none

-- `value[key]`, which is null where there is no such member.
unfoldable pub index : String → Json → Json
unfolding get
index k v = elim (get k v) [ none ↦ null | some m ↦ m ]

unfoldable pub as_str : Json → Option String
as_str (str s) = some s
as_str _ = none
