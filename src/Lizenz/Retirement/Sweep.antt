-- ===== src/Lizenz/Retirement/Sweep.antt =====
-- The sweep of CheckInactiveLizenz of x/lizenz/keeper/keeper.go over all licences, and BeginBlocker.
use mathlib.Core.Bool.{false≢true}
use volnix_protocol.Base.{
  Text, ℤ, ◌≡◌, ◌≢◌, ok, List, [], ◌∷◌, true, false, sym, ◌∙◌, ap, arith, refl, text_eq,
  text_eq_iff, Bool-cases, Outcome-cases, inl, inr, ltb_ℤ, ◌-ℤ◌, some,
}
use volnix_protocol.KvStore.{KvStore, text_key}
use volnix_protocol.KvStore
use volnix_protocol.KvStore.Sorted.{AllAfter, IsSorted}
use volnix_protocol.Host.{Env}
use volnix_protocol.Lizenz.Types.{ActivatedLizenz, DeactivatingLizenz}
use volnix_protocol.Lizenz.Neighbours.{Neighbours}
use volnix_protocol.Lizenz.Keeper.{State}
use volnix_protocol.Lizenz.Blocks.{retire, retire_inactive, check_inactive_lizenz, begin_blocker}
use volnix_protocol.Lizenz.Retirement.{
  IsNamed, inactive_at, inactive_at_head, inactive_at_tail, retire-ok, Swept,
}

module _ (n : Neighbours) (e : Env) (threshold : ℤ) (v : Text) where
  -- A retired licence before the rest of the sweep.
  sweep_retired :
      (k : Text) (l : ActivatedLizenz) (m : KvStore Text ActivatedLizenz) (s s' : State n)
      → (retire n e l s).0 ≡ ok tt
      → l.validator ≡ k
      → AllAfter k m
      → ltb_ℤ l.last_activity threshold ≡ true
      → Swept n e.now v (inactive_at v threshold m) (retire n e l s).1 s'
      → Swept n e.now v (inactive_at v threshold ((k, l) ∷ m)) s s'
  sweep_retired k l m s s' r named after idle rest =
      let (left, now, free, same) = retire-ok n e l s v r in
      elim (Bool-cases (text_eq k v)) [
        | inl hit ↦
            let here = (text_eq_iff k v).0 hit in
            let (none_later, at_head) = inactive_at_head v threshold k l m after here in
            let own = (text_eq_iff l.validator v).1 (named ∙ here) in
            record {
              activated_left = ground (arith, left, none_later, at_head, own);
              deactivating_now = ground (arith, now, none_later, at_head, own);
              was_free = λ _ _. cc (free, named, here);
              params_same = rest.params_same ∙ same;
            }
        | inr miss ↦
            let tail =
              inactive_at_tail v threshold k l m
                (λ here. false≢true (sym miss ∙ (text_eq_iff k v).1 here)) in
            let apart = ap (λ w. text_eq w v) named ∙ miss in
            record {
              activated_left = ground (arith, left, tail, apart);
              deactivating_now = ground (arith, now, tail, apart);
              was_free = λ o found. sym (rw apart at now) ∙ rest.was_free o (sym tail ∙ found);
              params_same = rest.params_same ∙ same;
            }
      ]

  sweep_kept :
      (k : Text) (l : ActivatedLizenz) (m : KvStore Text ActivatedLizenz) (s s' : State n)
      → AllAfter k m
      → ltb_ℤ l.last_activity threshold ≡ false
      → Swept n e.now v (inactive_at v threshold m) s s'
      → Swept n e.now v (inactive_at v threshold ((k, l) ∷ m)) s s'
  sweep_kept k l m s s' after busy rest = elim (Bool-cases (text_eq k v)) [
    | inl hit ↦
        let (none_later, at_head) =
          inactive_at_head v threshold k l m after ((text_eq_iff k v).0 hit) in
        let kept : inactive_at v threshold ((k, l) ∷ m) ≡ inactive_at v threshold m =
          ground (arith, none_later, at_head) in
        rw kept rest
    | inr miss ↦
        rw
          (inactive_at_tail v threshold k l m
            (λ here. false≢true (sym miss ∙ (text_eq_iff k v).1 here)))
          rest
  ]

  sweep_nothing :
      (s : State n)
      → Swept n e.now v (inactive_at v threshold []) s (retire_inactive n e threshold [] s).1
  unfolding inactive_at KvStore.get retire_inactive
  sweep_nothing s = record {
    activated_left = refl;
    deactivating_now = refl;
    was_free = λ o found. absurd (ground arith);
    params_same = refl;
  }

  sweep_idle :
      (l : ActivatedLizenz) (ls : List ActivatedLizenz) (s : State n)
      → ltb_ℤ l.last_activity threshold ≡ true
      → (retire_inactive n e threshold (l ∷ ls) s).0 ≡ ok tt
      → ((retire n e l s).0 ≡ ok tt)
        × (retire_inactive n e threshold (l ∷ ls) s
            ≡ retire_inactive n e threshold ls (retire n e l s).1)
  unfolding retire_inactive
  sweep_idle l ls s idle r = ground arith

  sweep_busy :
      (l : ActivatedLizenz) (ls : List ActivatedLizenz) (s : State n)
      → ltb_ℤ l.last_activity threshold ≡ false
      → retire_inactive n e threshold (l ∷ ls) s ≡ retire_inactive n e threshold ls s
  unfolding retire_inactive
  sweep_busy l ls s busy = rw busy

  sweep :
      (m : KvStore Text ActivatedLizenz) (s : State n)
      → IsSorted m
      → IsNamed m
      → (retire_inactive n e threshold (KvStore.values m) s).0 ≡ ok tt
      → Swept n e.now v
          (inactive_at v threshold m)
          s
          (retire_inactive n e threshold (KvStore.values m) s).1
  unfolding IsSorted IsNamed KvStore.values
  sweep [] s sorted named r = sweep_nothing s
  sweep ((k, l) ∷ m) s (after, sorted) (own, named) r =
      elim (Bool-cases (ltb_ℤ l.last_activity threshold)) [
        | inl idle ↦
            let (retired, goes_on) = sweep_idle l (KvStore.values m) s idle r in
            let rest = sweep m (retire n e l s).1 sorted named (sym (ap (λ o. o.0) goes_on) ∙ r) in
            rw goes_on (sweep_retired k l m s _ retired own after idle rest)
        | inr busy ↦
            let goes_on = sweep_busy l (KvStore.values m) s busy in
            let rest = sweep m s sorted named (sym (ap (λ o. o.0) goes_on) ∙ r) in
            rw goes_on (sweep_kept k l m s _ after busy rest)
      ]

-- Where the store of licences is sorted and every licence stands under its own validator, an
-- accepted CheckInactiveLizenz removes exactly the licences that were last active before the
-- threshold, and puts each into deactivation with its amount; those validators were not in
-- deactivation before, and all other entries stay.
pub check_inactive_lizenz-Swept :
    (n : Neighbours) (e : Env) (s : State n) (v : Text)
    → IsSorted s.activated
    → IsNamed s.activated
    → (check_inactive_lizenz n e s).0 ≡ ok tt
    → Swept n e.now v
        (inactive_at v (e.block_time -ℤ s.params.inactivity_period) s.activated)
        s
        (check_inactive_lizenz n e s).1
unfolding check_inactive_lizenz
check_inactive_lizenz-Swept n e s v sorted named r =
    sweep n e (e.block_time -ℤ s.params.inactivity_period) v s.activated s sorted named r

idle-found :
    (v : Text) (threshold : ℤ) (m : KvStore Text ActivatedLizenz) (l : ActivatedLizenz)
    → KvStore.get v m ≡ some l
    → ltb_ℤ l.last_activity threshold ≡ true
    → inactive_at v threshold m ≡ some l
unfolding inactive_at
idle-found v threshold m l found idle = ground arith

-- While a validator that is still in deactivation has a licence that is inactive again,
-- BeginBlocker does not succeed, where the store of licences is sorted and every licence stands
-- under its own validator.
pub begin_blocker_stuck :
    (n : Neighbours) (e : Env) (s : State n) (v : Text) (l : ActivatedLizenz)
    (d : DeactivatingLizenz)
    → IsSorted s.activated
    → IsNamed s.activated
    → KvStore.get v s.activated ≡ some l
    → ltb_ℤ l.last_activity (e.block_time -ℤ s.params.inactivity_period) ≡ true
    → KvStore.get v s.deactivating ≡ some d
    → (begin_blocker n e s).0 ≢ ok tt
unfolding begin_blocker
begin_blocker_stuck n e s v l d sorted named found idle taken r =
    elim (Outcome-cases (check_inactive_lizenz n e s).0) [
      | inl (_, went) ↦
          let swept = check_inactive_lizenz-Swept n e s v sorted named went in
          absurd (ground (arith, swept.was_free l (idle-found v _ s.activated l found idle)))
      | inr (x, failed) ↦ absurd (ground arith)
    ]
