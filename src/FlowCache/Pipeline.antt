-- ===== src/FlowCache/Pipeline.antt =====
-- samples/fcache/src/fc_cache_generate.h: the loops of the bulk operations, which run each stage on
-- a step of eight keys, a later stage some steps behind the one before it. In `find_bulk` and its
-- like a stage that only prefetches is left out.
use relative_q.Base.{
  ℕ, zero, suc, ◌+◌, ◌-◌, ◌%◌, ◌^◌, if◌then◌else◌, not, ◌&&◌, true, false, ltb, Option, none, some,
}

abbrev pub step_keys : ℕ
step_keys = 8

abbrev pub ahead_keys : ℕ
ahead_keys = 32

module _ {S : Type 0} where
  -- The inner loop of a stage, with `n` keys left from `i` on.
  unfoldable pub stage_loop : (ℕ → S → S) → ℕ → ℕ → S → S
  stage_loop body zero i s = s
  stage_loop body (suc n) i s = stage_loop body n (i + 1) (body i s)

  -- A stage that is `offset` keys behind, at round `i` of a batch of `nb_keys`.
  unfoldable pub stage : (ℕ → S → S) → ℕ → ℕ → ℕ → S → S
  stage body offset nb_keys i s =
      let base = i - offset in
      let n = if ltb nb_keys ((base + step_keys) % 2 ^ 32) then nb_keys - base else step_keys in
      elim (not (ltb i offset) && ltb base nb_keys) [ true ↦ stage_loop body n base s | false ↦ s ]

  -- The loop over the rounds; `none` when the fuel is out.
  unfoldable pub rounds : (ℕ → S → S) → ℕ → ℕ → ℕ → S → Option S
  rounds round total zero i s = none
  rounds round total (suc fuel) i s = elim (ltb i total) [
    | true ↦ rounds round total fuel ((i + step_keys) % 2 ^ 32) (round i s)
    | false ↦ some s
  ]
