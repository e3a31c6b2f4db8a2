-- ===== src/Failover/CachedJson.antt =====
-- The JSON text of src/failover-table.cc, as the values that cJSON prints and parses. An object is
-- what `cJSON_GetObjectItem` answers for the two names that the code asks for.
use ep_engine.Base.{
  ℕ, zero, suc, ◌+◌, ◌-◌, ◌*◌, ◌/◌, ◌%◌, ◌^◌, ◌<◌, ◌≡◌, List, ltb, if◌then◌else◌, arith,
}

pub data Member : Type 0 where
  missing : Member
  number : ℕ → Member
  other : Member

pub data JsonItem : Type 0 where
  object : Member → Member → JsonItem
  not_object : JsonItem

pub data Json : Type 0 where
  array : List JsonItem → Json
  not_array : Json

-- n / 2^e to the nearest even, times 2^e.
round_at : ℕ → ℕ → ℕ
round_at e n =
    let q = n / 2 ^ e in
    let r = n % 2 ^ e in
    let half = 2 ^ (e - 1) in
    (if ltb r half then q else (if ltb half r then q + 1 else q + q % 2)) * 2 ^ e

nearest : ℕ → ℕ → ℕ → ℕ
nearest zero e n = round_at e n
nearest (suc k) e n =
    let wider = nearest k (e + 1) n in if ltb n (2 ^ (53 + e)) then round_at e n else wider

-- A `uint64_t` that goes through a `double`, as in `cJSON_AddNumberToObject`: it is rounded to the
-- 53 bits of the mantissa.
pub to_double : ℕ → ℕ
unfolding nearest round_at
to_double n = if ltb n (2 ^ 53) then n else nearest 10 1 n

pub to_double_exact : (n : ℕ) → n < 2 ^ 53 → to_double n ≡ n
unfolding to_double
to_double_exact n h = ground arith
