-- ===== src/Cgroup.antt =====
-- mem/internal/cgroup: mem.go and util.go, the memory of a control group. Files, `path.Join` and
-- `strconv.ParseInt` are the parameter `Host`; an int64 is an integer, and `int` has 64 bits.
pub mod Limit
mod Tests
use rudder_go_kit.Prelude.{
  ℕ, zero, suc, ◌+◌, ◌-◌, List, [], ◌∷◌, ◌++◌, Option, none, some, Bool, true, false, ◌||◌, leb,
  ltb, if◌then◌else◌, is_some,
}
use rudder_go_kit.Prelude.Int.{ℤ, pos, negsuc}
use rudder_go_kit.Config.Types.{Text, codes}
use rudder_go_kit.Cdoc.Strings.{cut_prefix, split, trim_space}

-- `a < b` on int64.
unfoldable pub int_lt : ℤ → ℤ → Bool
int_lt (pos m) (pos n) = ltb m n
int_lt (negsuc m) (pos n) = true
int_lt (pos m) (negsuc n) = false
int_lt (negsuc m) (negsuc n) = ltb n m

-- `a - b` on int64, where `a` is not below `b`; the difference is in range if neither is negative.
unfoldable pub difference : ℤ → ℤ → ℤ
difference (pos m) (pos n) = pos (m - n)
difference (pos m) (negsuc n) = pos (m + suc n)
difference (negsuc m) (negsuc n) = pos (n - m)
difference (negsuc m) (pos n) = negsuc (m + n)

pub record Host : Type 0 where
  pub read_file : Text → Option Text
  pub join_path : List Text → Text
  pub parse_int : Text → Option ℤ
  pub is_space : ℕ → Bool

-- `strings.Contains`
unfoldable pub contains_text : Text → Text → Bool
contains_text sub [] = is_some (cut_prefix sub [])
contains_text sub (c ∷ s) = is_some (cut_prefix sub (c ∷ s)) || contains_text sub s

-- `parts[index]`
unfoldable pub part_at : ℕ → List Text → Option Text
part_at index [] = none
part_at zero (p ∷ ps) = some p
part_at (suc index) (p ∷ ps) = part_at index ps

module _ (host : Host) where
  -- The loop of `grepFirstMatch` over the lines.
  unfoldable pub first_match : Text → ℕ → ℕ → List Text → Option Text
  first_match match_text index delimiter [] = none
  first_match match_text index delimiter (s ∷ lines) =
      let rest = first_match match_text index delimiter lines in
      if contains_text match_text s
      then elim (part_at index (split delimiter s)) [
        | some p ↦ some (trim_space host.is_space p)
        | none ↦ rest
      ]
      else rest

  -- `grepFirstMatch`
  unfoldable pub grep_first_match : Text → Text → ℕ → ℕ → Option Text
  grep_first_match data_text match_text index delimiter =
      first_match match_text index delimiter (split b'\n' data_text)

  -- `getFileContents`
  unfoldable pub get_file_contents : Text → Text → Text → Text → Option Text
  get_file_contents stat_name sysfs_prefix cgroup_path grep_line =
      elim (host.read_file (host.join_path (sysfs_prefix ∷ stat_name ∷ []))) [
        | some found ↦ some found
        | none ↦ elim (host.read_file cgroup_path) [
          | none ↦ none
          | some cgroup_data ↦ elim (grep_first_match cgroup_data grep_line 2 b':') [
            | none ↦ none
            | some sub_path ↦
                host.read_file (host.join_path (sysfs_prefix ∷ sub_path ∷ stat_name ∷ []))
          ]
        ]
      ]

  -- `getStatGeneric`
  unfoldable pub get_stat_generic : Text → Text → Text → Text → Option ℤ
  get_stat_generic stat_name sysfs_prefix cgroup_path grep_line =
      elim (get_file_contents stat_name sysfs_prefix cgroup_path grep_line) [
        | none ↦ none
        | some found ↦ host.parse_int (trim_space host.is_space found)
      ]

  module _ (base_path : Text) where
    -- `getMemStatCgroup2`
    unfoldable pub get_mem_stat_cgroup2 : Text → Option ℤ
    get_mem_stat_cgroup2 stat_name =
        get_stat_generic stat_name (base_path ++ codes "/sys/fs/cgroup")
          (base_path ++ codes "/proc/self/cgroup") []

    -- `getMemStatCgroup1`
    unfoldable pub get_mem_stat_cgroup1 : Text → Option ℤ
    get_mem_stat_cgroup1 stat_name =
        get_stat_generic stat_name (base_path ++ codes "/sys/fs/cgroup/memory")
          (base_path ++ codes "/proc/self/cgroup") (codes "memory")

    -- The common body of `memStatCgroup1` and `memStatCgroup2`.
    unfoldable pub mem_stat : Text → Text → Text → ℤ
    mem_stat sysfs_prefix grep_line key =
        elim (get_file_contents (codes "memory.stat") sysfs_prefix
          (base_path ++ codes "/proc/self/cgroup") grep_line) [
            | none ↦ pos 0
            | some found ↦ elim (grep_first_match found key 1 b' ') [
              | none ↦ pos 0
              | some stat ↦ elim (host.parse_int stat) [ none ↦ pos 0 | some n ↦ n ]
            ]
          ]

    -- `memStatCgroup1`
    unfoldable pub mem_stat_cgroup1 : Text → ℤ
    mem_stat_cgroup1 key =
        mem_stat (base_path ++ codes "/sys/fs/cgroup/memory") (codes "memory") key

    -- `memStatCgroup2`
    unfoldable pub mem_stat_cgroup2 : Text → ℤ
    mem_stat_cgroup2 key = mem_stat (base_path ++ codes "/sys/fs/cgroup") [] key

    -- `getWSSMemoryCgroup1` and `getWSSMemoryCgroup2`, with what they take for inactive.
    unfoldable pub wss_memory : ℤ → ℤ → ℤ
    wss_memory used inactive = if int_lt used inactive then pos 0 else difference used inactive

    -- `GetMemoryUsage`
    unfoldable pub get_memory_usage : ℤ
    get_memory_usage = elim (get_mem_stat_cgroup1 (codes "memory.usage_in_bytes")) [
      | some n ↦
          let wss = wss_memory n (mem_stat_cgroup1 (codes "total_inactive_file")) in
          let rss = mem_stat_cgroup1 (codes "total_rss") in if int_lt rss wss then wss else rss
      | none ↦ elim (get_mem_stat_cgroup2 (codes "memory.current")) [
        | none ↦ pos 0
        | some n ↦ wss_memory n (mem_stat_cgroup2 (codes "inactive_file"))
      ]
    ]

    -- `GetMemoryRSS`
    unfoldable pub get_memory_rss : ℤ
    get_memory_rss =
        if int_lt (pos 0) (mem_stat_cgroup1 (codes "total_rss"))
        then mem_stat_cgroup1 (codes "total_rss")
        else mem_stat_cgroup2 (codes "anon")

    -- The limit is not positive, or above the total.
    unfoldable pub is_out_of_range : ℤ → ℤ → Bool
    is_out_of_range n total_mem = int_lt n (pos 1) || int_lt total_mem n

    -- `getLimit` in `GetMemoryLimit`
    unfoldable pub get_limit : ℤ → ℤ
    get_limit total_mem = elim (get_mem_stat_cgroup1 (codes "memory.limit_in_bytes")) [
      | some n ↦
          if is_out_of_range n total_mem
          then mem_stat_cgroup1 (codes "hierarchical_memory_limit")
          else n
      | none ↦ elim (get_mem_stat_cgroup2 (codes "memory.max")) [ none ↦ pos 0 | some n ↦ n ]
    ]

    -- `GetMemoryLimit`
    unfoldable pub get_memory_limit : ℤ → ℤ
    get_memory_limit total_mem =
        let limit = get_limit total_mem in
        if is_out_of_range limit total_mem then total_mem else limit
