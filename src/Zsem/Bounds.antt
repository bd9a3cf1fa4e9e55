-- ===== src/Zsem/Bounds.antt =====
-- Which identifiers zeos_full/zeos_semaphores.c takes.
use ze_os_filesystem.Base.{ℕ, ◌<◌, ◌≡◌, refl, lt→ltb, none, ok, fault}
use ze_os_filesystem.Base.Int.{ℤ, pos, negsuc, neg}
use ze_os_filesystem.Zsem.{
  ZSems, returned, einval, place, zeos_sys_sem_init, zeos_sys_sem_destroy, zeos_sys_sem_signal,
  zeos_sys_sem_wait,
}

module _ (ticks ticks' : ℕ) (value : ℤ) (s : ZSems) where
  abbrev AllRefuse : ℤ → Type 0
  AllRefuse sem_id =
      (zeos_sys_sem_init ticks ticks' sem_id value s ≡ ok (returned (neg einval), s))
      × (zeos_sys_sem_destroy sem_id s ≡ ok (neg einval, s))
      × (zeos_sys_sem_signal sem_id s ≡ ok (neg einval, s))
      × (zeos_sys_sem_wait ticks ticks' sem_id s ≡ ok (returned (neg einval), s))

  refused : (sem_id : ℤ) → place sem_id ≡ ok none → AllRefuse sem_id
  unfolding zeos_sys_sem_init zeos_sys_sem_destroy zeos_sys_sem_signal zeos_sys_sem_wait
  refused sem_id e = (rw e refl, rw e refl, rw e refl, rw e refl)

  -- Each of the four calls refuses a negative identifier and one above 10, with `-EINVAL` and without a
  -- change, and reaches behind the array with the identifier 10.
  pub identifiers_lem :
      ((n : ℕ) → AllRefuse (negsuc n))
      × ((i : ℕ) → 10 < i → AllRefuse (pos i))
      × (zeos_sys_sem_init ticks ticks' (pos 10) value s ≡ fault)
      × (zeos_sys_sem_destroy (pos 10) s ≡ fault)
      × (zeos_sys_sem_signal (pos 10) s ≡ fault)
      × (zeos_sys_sem_wait ticks ticks' (pos 10) s ≡ fault)
  unfolding place zeos_sys_sem_init zeos_sys_sem_destroy zeos_sys_sem_signal zeos_sys_sem_wait
  identifiers_lem = (
    λ n. refused (negsuc n) refl,
    λ i large. refused (pos i) (rw (lt→ltb 10 i large) refl),
    refl,
    refl,
    refl,
    refl,
  )
