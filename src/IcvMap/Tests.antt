-- ===== src/IcvMap/Tests.antt =====
-- The theorems on the sparse map at concrete indices: modules/common/ccsimics/icv_map.h.
use c3_simulator.Common.{◌≡◌, none}
use c3_simulator.IcvMap.Page.{IcvMap, map_clear, map_set, map_get}
use c3_simulator.IcvMap.Sparse.{IsWf, map_set-IsWf, map_get-map_set, map_clear_lem}

abbrev empty_map : IcvMap
empty_map = map_clear (record { pages = λ p. none })

empty_map-IsWf : IsWf empty_map
empty_map-IsWf = (map_clear_lem (record { pages = λ p. none })).0

map_set-IsWf_example : IsWf (map_set (map_set empty_map 5 9) 5 0)
map_set-IsWf_example =
    map_set-IsWf (map_set empty_map 5 9) 5 0 (map_set-IsWf empty_map 5 9 empty_map-IsWf)

map_get-map_set_example :
    map_get (map_set (map_set empty_map 5 9) 0x200005 7) 5 ≡ map_get (map_set empty_map 5 9) 5
map_get-map_set_example =
    map_get-map_set (map_set empty_map 5 9) 0x200005 5 7 (map_set-IsWf empty_map 5 9 empty_map-IsWf)
