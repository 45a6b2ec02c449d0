-- ===== src/Cgroup/Limit.antt =====
-- mem/internal/cgroup/mem.go: the limit of a control group and its bounds.
use rudder_go_kit.Prelude.{
  ℕ, ◌≡◌, ◌≤◌, ◌<◌, refl, ◌⊎◌, inl, inr, some, Bool-cases, Option-cases, arith, if◌then◌else◌, true,
  false,
}
use rudder_go_kit.Prelude.Int.{ℤ, pos, negsuc}
use rudder_go_kit.Config.Types.{Text, codes}
use rudder_go_kit.Cgroup.{
  Host, int_lt, is_out_of_range, get_mem_stat_cgroup1, get_mem_stat_cgroup2, mem_stat_cgroup1,
  get_limit, get_memory_limit,
}

module _ (host : Host) (base_path : Text) where
  -- Where a number was read: a limit of version 1, the hierarchical one, or one of version 2.
  abbrev pub IsRead : ℤ → Type 0
  IsRead l =
      (get_mem_stat_cgroup1 host base_path (codes "memory.limit_in_bytes") ≡ some l)
      ⊎ ((mem_stat_cgroup1 host base_path (codes "hierarchical_memory_limit") ≡ l)
          ⊎ (get_mem_stat_cgroup2 host base_path (codes "memory.max") ≡ some l))

  -- A limit that is positive and not above the total, and is the total or was read.
  pub record IsLimit (total : ℕ) (l : ℤ) : Type 0 where
    pub bytes : ℕ
    pub is : l ≡ pos bytes
    pub positive : 0 < bytes
    pub within : bytes ≤ total
    pub origin : (bytes ≡ total) ⊎ IsRead (pos bytes)

  IsLimit-total : (total : ℕ) → 0 < total → IsLimit total (pos total)
  IsLimit-total total h = record {
    bytes = total;
    is = refl;
    positive = h;
    within = omega arith;
    origin = inl refl;
  }

  in_range :
      (n total : ℕ)
      → is_out_of_range host base_path (pos n) (pos total) ≡ false
      → (0 < n) × (n ≤ total)
  unfolding is_out_of_range int_lt
  in_range n total e = ground (arith, e)

  out_of_range_negsuc : (n total : ℕ) → is_out_of_range host base_path (negsuc n) (pos total) ≡ true
  unfolding is_out_of_range int_lt
  out_of_range_negsuc n total = refl

  out_of_range_zero : (total : ℕ) → is_out_of_range host base_path (pos 0) (pos total) ≡ true
  unfolding is_out_of_range int_lt
  out_of_range_zero total = refl

  -- The last test of `GetMemoryLimit`.
  IsLimit-if :
      (l : ℤ) (total : ℕ)
      → 0 < total
      → IsRead l ⊎ (l ≡ pos 0)
      → IsLimit total (if is_out_of_range host base_path l (pos total) then pos total else l)
  IsLimit-if (negsuc n) total h r = rw (out_of_range_negsuc n total) (IsLimit-total total h)
  IsLimit-if (pos n) total h (inr z) = rw z (rw (out_of_range_zero total) (IsLimit-total total h))
  IsLimit-if (pos n) total h (inl r) =
      elim (Bool-cases (is_out_of_range host base_path (pos n) (pos total))) [
        | inl t ↦ rw t (IsLimit-total total h)
        | inr f ↦
            let (p, q) = in_range n total f in
            rw f (record { bytes = n; is = refl; positive = p; within = q; origin = inr r })
      ]

  get_limit-IsRead :
      (total : ℤ)
      → IsRead (get_limit host base_path total) ⊎ (get_limit host base_path total ≡ pos 0)
  unfolding get_limit
  get_limit-IsRead total =
      elim (Option-cases (get_mem_stat_cgroup1 host base_path (codes "memory.limit_in_bytes"))) [
        | inr (n, h) ↦ elim (Bool-cases (is_out_of_range host base_path n total)) [
          | inl t ↦ rw (h, get_limit) (rw t (inl (inr (inl refl))))
          | inr f ↦ rw (h, get_limit) (rw f (inl (inl refl)))
        ]
        | inl h ↦ elim (Option-cases (get_mem_stat_cgroup2 host base_path (codes "memory.max"))) [
          | inl e ↦ rw (h, get_limit) (rw e (inr refl))
          | inr (n, e) ↦ rw (h, get_limit) (rw e (inl (inr (inr refl))))
        ]
      ]

  -- Whatever the files hold: for a positive total memory `GetMemoryLimit` returns a positive number
  -- of bytes that is not above the total, and it is the total or a limit that the files of the
  -- control group give.
  pub get_memory_limit-IsLimit :
      (total : ℕ) → 0 < total → IsLimit total (get_memory_limit host base_path (pos total))
  unfolding get_memory_limit
  get_memory_limit-IsLimit total h =
      IsLimit-if (get_limit host base_path (pos total)) total h (get_limit-IsRead (pos total))
