-- ===== src/Python/Items.antt =====
-- Lookups that succeed, and the values that they give.
use cloud_glider.Prelude.{String, ◌≡◌, true, arith}
use cloud_glider.Python.Result.{ok}
use cloud_glider.Python.Dict.{has_key}
use cloud_glider.Python.Value.{Value, Record, item, get}

pub item-ok :
    (k : String) (control : Record) {v : Value} → item control k ≡ ok v → get k control ≡ v
unfolding item get
item-ok k control h = ground arith

pub item-get :
    (control : Record) (k : String) → has_key control k ≡ true → item control k ≡ ok (get k control)
unfolding item get has_key
item-get control k h = ground arith
