-- ===== src/Http/Laws.antt =====
-- Maps of headers: what is read after a write.
use mtlogin.Prelude.{String, false, ◌≡◌, [], ◌∷◌, arith, eq_iff, str_eq}
use mtlogin.Http.{Headers, lookup, set}

pub lookup-set : (k v : String) (hs : Headers) → lookup k (set k v hs) ≡ v
lookup-set k v [] = ground (arith, eq_iff k k)
lookup-set k v ((j, u) ∷ hs) = ground (arith, lookup-set k v hs)

pub lookup-set_ne :
    (j k v : String) (hs : Headers) → str_eq k j ≡ false → lookup j (set k v hs) ≡ lookup j hs
lookup-set_ne j k v [] h = ground arith
lookup-set_ne j k v ((i, u) ∷ hs) h =
    ground (arith, lookup-set_ne j k v hs h, eq_iff i k, eq_iff i j)
