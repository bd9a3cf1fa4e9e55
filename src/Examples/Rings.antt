-- ===== src/Examples/Rings.antt =====
-- Two small rings: the nodes 2 and 3 in that of 1, and the node 6 in that of 5.
use ze_os_filesystem.Base.{◌==◌, if◌then◌else◌, refl, [], ◌∷◌, arith}
use ze_os_filesystem.Ring.{Links, list_add_tail, list_del}
use ze_os_filesystem.Ring.Refine.{Ring}
use ze_os_filesystem.Ring.Move.{list_add_tail-list_del}

abbrev two_rings : Links
two_rings = record {
  next = λ k.
      if k == 1 then 2 else if k == 2 then 3 else if k == 3 then 1 else if k == 5 then 6 else 5;
  prev = λ k.
      if k == 1 then 3 else if k == 2 then 1 else if k == 3 then 2 else if k == 5 then 6 else 5;
}

first-Ring : Ring two_rings 1 (2 ∷ 3 ∷ [])
first-Ring = record {
  links = (refl, refl, (refl, refl, (refl, refl)));
  distinct = (refl, (refl, (refl, tt)));
}

second-Ring : Ring two_rings 5 (6 ∷ [])
second-Ring = record { links = (refl, refl, (refl, refl)); distinct = (refl, (refl, tt)) }

list_add_tail-list_del_example :
    Ring (list_add_tail 2 5 (list_del 2 two_rings)) 1 (3 ∷ [])
    × Ring (list_add_tail 2 5 (list_del 2 two_rings)) 5 (6 ∷ 2 ∷ [])
list_add_tail-list_del_example =
    list_add_tail-list_del two_rings 1 5 2 (3 ∷ []) (6 ∷ []) first-Ring second-Ring
      (λ k m. ground arith) (λ k m. ground arith)
