-- ===== src/Runsd/Actor/Watchdog/Settles.antt =====
-- What a tick of crates/runsd/src/actor/watchdog.rs leaves of the expired leases.
use ensurer_v.Prelude.{
  ℕ, suc, ◌+◌, ◌*◌, ◌≡◌, refl, sym, ap, ◌∙◌, subst, String, ◌==◌, true, false, ◌⊎◌, List, [], ◌∷◌,
  map, any, select, All, All-mono, arith, ok, ltb, Bool-cases, Result-cases, inl, inr, traverse,
  traverse-ok, select-yes, select-no, map_err-ok, All-select, eq_refl, eq_iff,
}
use ensurer_v.Common.Model.{Calculation}
use ensurer_v.Runsd.Codec.{Codec}
use ensurer_v.Runsd.Db.Row.{CalcRow, as_u32, try_into_calc}
use ensurer_v.Runsd.Db.Tables.{Db, set_calc}
use ensurer_v.Runsd.Db.Changes.{has_expired_lease, failed_row, retrying_row}
use ensurer_v.Runsd.Db.Queries.Calculations.{list_expired_leases}
use ensurer_v.Runsd.Db.Sound.{IsSound, IsSoundDb}
use ensurer_v.Runsd.Db.Sound.Reads.{list_expired_leases-ok}
use ensurer_v.Runsd.Actor.Db.{DbCmd, process}
use ensurer_v.Runsd.Actor.World.{Env, World, next, send}
use ensurer_v.Runsd.Actor.Run.Refresh.{IsQuiet, send-quiet}
use ensurer_v.Runsd.Actor.Watchdog.{expire, expire_all, on_expired, tick}

module _ (codec : Codec) (now : ℕ) where
  -- The ids of calculations as the rows have them.
  abbrev texts : List Calculation → List String
  texts = map (λ (c : Calculation). codec.uuid_text c.id)

  -- A row whose lease is expired is still to be handled.
  abbrev IsListed : List String → CalcRow → Type 0
  IsListed ids r = (has_expired_lease now r ≡ false) ⊎ (any (λ s. s == r.id) ids ≡ true)

  handled :
      (id : String) (ids : List String) (f : CalcRow → CalcRow) (rows : List CalcRow)
      → ((r : CalcRow) → has_expired_lease now (f r) ≡ false)
      → All (IsListed (id ∷ ids)) rows
      → All (IsListed ids) (set_calc id f rows)
  unfolding set_calc
  handled id ids f [] settles h = tt
  handled id ids f (r ∷ rs) settles h = elim (Bool-cases (r.id == id)) [
    | inl e ↦ rw e (inl (settles r), handled id ids f rs settles h.1)
    | inr e ↦ rw e (
      elim h.0 [
        | inl k ↦ inl k
        | inr k ↦ inr (ground (arith, eq_iff r.id id, eq_iff id r.id, e, k))
      ],
      handled id ids f rs settles h.1,
    )
  ]

  converted_id :
      (r : CalcRow) (c : Calculation)
      → IsSound codec r
      → try_into_calc codec r ≡ ok c
      → codec.uuid_text c.id ≡ r.id
  unfolding try_into_calc
  converted_id r c (s, h) e = ground (arith, h.id_written)

  converted_ids :
      (rows : List CalcRow) (calcs : List Calculation)
      → All (IsSound codec) rows
      → traverse (try_into_calc codec) rows ≡ ok calcs
      → texts calcs ≡ map (λ (r : CalcRow). r.id) rows
  converted_ids [] [] h e = refl
  converted_ids [] (c ∷ cs) h e = cc
  converted_ids (r ∷ rs) calcs h e =
      let (c, cs, f, g, same) = traverse-ok (try_into_calc codec) r rs calcs e in
      rw (same, converted_id r c h.0 f, converted_ids rs cs h.1 g) refl

  cons-IsListed :
      (id : String) (ids : List String) (r : CalcRow) → IsListed ids r → IsListed (id ∷ ids) r
  cons-IsListed id ids r (inl e) = inl e
  cons-IsListed id ids r (inr e) = inr (ground (arith, e))

  select-IsListed :
      (rows : List CalcRow)
      → All (IsListed (map (λ (r : CalcRow). r.id) (select (has_expired_lease now) rows))) rows
  select-IsListed [] = tt
  select-IsListed (r ∷ rs) = elim (Bool-cases (has_expired_lease now r)) [
    | inl e ↦
        subst (λ l. All (IsListed (map (λ (x : CalcRow). x.id) l)) (r ∷ rs))
          (sym (select-yes (has_expired_lease now) r rs e))
          (
            inr (rw (eq_refl r.id) refl),
            All-mono rs (λ x k. cons-IsListed r.id _ x k) (select-IsListed rs),
          )
    | inr e ↦
        subst (λ l. All (IsListed (map (λ (x : CalcRow). x.id) l)) (r ∷ rs))
          (sym (select-no (has_expired_lease now) r rs e)) (inl e, select-IsListed rs)
  ]

  select-none :
      (rows : List CalcRow) → All (IsListed []) rows → select (has_expired_lease now) rows ≡ []
  select-none [] h = refl
  select-none (r ∷ rs) h = ground (arith, select-none rs h.1)

module _ (env : Env) (quiet : IsQuiet env) (now : ℕ) where
  -- The change that the watchdog makes to the row of a calculation.
  abbrev Change : Calculation → World → Type 0
  Change calc w =
      (f : CalcRow → CalcRow) × ((r : CalcRow) → has_expired_lease now (f r) ≡ false)
      × ((expire env now calc w).1.tables.calculations
          ≡ set_calc (env.codec.uuid_text calc.id) f w.tables.calculations)

  expire-Change : (calc : Calculation) (w : World) → Change calc w
  unfolding expire process failed_row retrying_row
  expire-Change calc w = elim (Bool-cases (ltb calc.max_attempts (as_u32 (calc.attempt + 1)))) [
    | inl e ↦ rw e (
      failed_row (env.served w.step).now "crash_exhausted" "lease expired; attempts exhausted",
      (λ r. refl),
      ap (λ p. p.1.tables.calculations) (send-quiet env quiet (DbCmd.calc_failed calc.id _ _) w),
    )
    | inr e ↦ rw e (
      retrying_row (env.served w.step).now (as_u32 (calc.attempt + 1))
          (now + 5000 * as_u32 (calc.attempt + 1)),
      (λ r. refl),
      ap (λ p. p.1.tables.calculations) (send-quiet env quiet (DbCmd.calc_retrying calc.id _ _) w),
    )
  ]

  expire_all-settles :
      (calcs : List Calculation) (w : World)
      → All (IsListed env.codec now (texts env.codec now calcs)) w.tables.calculations
      → All (IsListed env.codec now []) (expire_all env now calcs w).1.tables.calculations
  unfolding expire_all
  expire_all-settles [] w h = h
  expire_all-settles (calc ∷ calcs) w h =
      let (f, settles, e) = expire-Change calc w in
      expire_all-settles calcs (expire env now calc w).1 (
        subst (All (IsListed env.codec now (texts env.codec now calcs))) (sym e) (
          handled env.codec now (env.codec.uuid_text calc.id) (texts env.codec now calcs) f
            w.tables.calculations settles h))

module _ (env : Env) (quiet : IsQuiet env) where
  -- With the lists that are read, the tables after the tick are those after its first loop.
  tick-tables :
      (w : World)
      → (tick env w).1.tables
        ≡ (on_expired env
            (env.clock w.step)
            (list_expired_leases env.codec (env.clock w.step) w.tables)
            (record w { step = suc (suc w.step) })).1.tables
  unfolding tick process
  tick-tables w =
      let now = env.clock w.step in
      let ready = DbCmd.list_ready_retries now in
      ap (λ p. (send env ready (on_expired env now p.0 p.1).1).1.tables)
        (send-quiet env quiet (DbCmd.list_expired_leases now) (next w))
      ∙ ap (λ p. p.1.tables)
          (send-quiet env quiet ready
            (on_expired env now (list_expired_leases env.codec now w.tables)
              (record w { step = suc (suc w.step) })).1)

  expired-IsListed :
      (now : ℕ) (tables : Db) (calcs : List Calculation)
      → IsSoundDb env.codec tables
      → list_expired_leases env.codec now tables ≡ ok calcs
      → All (IsListed env.codec now (texts env.codec now calcs)) tables.calculations
  unfolding list_expired_leases
  expired-IsListed now tables calcs h e =
      let rows = select (has_expired_lease now) tables.calculations in
      let sound =
        All-select (IsSound env.codec) (has_expired_lease now) tables.calculations h.calcs_sound in
      subst (λ ids. All (IsListed env.codec now ids) tables.calculations)
        (sym (converted_ids env.codec now rows calcs sound (map_err-ok _ _ calcs e)))
        (select-IsListed env.codec now tables.calculations)

  nothing_expired :
      (now : ℕ) (tables : Db)
      → All (IsListed env.codec now []) tables.calculations
      → list_expired_leases env.codec now tables ≡ ok []
  unfolding list_expired_leases
  nothing_expired now tables h = rw (select-none env.codec now tables.calculations h) refl

  -- While nobody else sends commands and SQLite refuses none, a tick of the watchdog on sound
  -- tables leaves no lease that is expired at its time.
  pub tick-settles :
      (w : World)
      → IsSoundDb env.codec w.tables
      → list_expired_leases env.codec (env.clock w.step) (tick env w).1.tables ≡ ok []
  unfolding on_expired
  tick-settles w h =
      let now = env.clock w.step in
      let v = record w { step = suc (suc w.step) } in
      elim (Result-cases (list_expired_leases env.codec now w.tables)) [
        | inl (calcs, e) ↦ nothing_expired now (tick env w).1.tables (
            subst (λ (t : Db). All (IsListed env.codec now []) t.calculations)
              (sym (tick-tables w ∙ ap (λ r. (on_expired env now r v).1.tables) e))
              (expire_all-settles env quiet now calcs v (expired-IsListed now w.tables calcs h e)))
        | inr (x, e) ↦ absurd (cc (list_expired_leases-ok env.codec now w.tables h, e))
      ]
