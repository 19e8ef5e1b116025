-- ===== src/Lizenz/Invariant/Steps.antt =====
-- The operations of x/lizenz that are made of others, against the invariant of its stores: the
-- messages, the activity of a validator, and BeginBlocker.
use volnix_protocol.Base.{
  ◌≡◌, ◌⊎◌, inl, inr, Bool, true, false, some, List, [], ◌∷◌, Text, is_empty, ok, raise_if, ◌>>=◌,
  ◌>>◌, arith, Outcome-cases,
}
use volnix_protocol.KvStore.{KvStore, text_key}
use volnix_protocol.KvStore
use volnix_protocol.Host.{Host, Env}
use volnix_protocol.Lizenz.Types.{
  ActivatedLizenz, Error, update_activated_lizenz_activity, empty_validator, empty_amount,
  empty_reason,
}
use volnix_protocol.Lizenz.Neighbours.{Neighbours}
use volnix_protocol.Lizenz.Keeper.{
  State, Handler, get_activated_lizenz, set_activated_lizenz, update_activated_lizenz,
  delete_activated_lizenz,
}
use volnix_protocol.Lizenz.Messages.{
  MsgActivateLzn, MsgDeactivateLzn, activate_lzn, deactivate_lzn, set_eligible, transfer_lizenz,
  requested_lizenz,
}
use volnix_protocol.Lizenz.Blocks.{begin_blocker}
use volnix_protocol.Lizenz.Moa.{
  set_moa_status, touch_lizenz, touch_moa_status, update_lizenz_activity, get_moa_status,
}
use volnix_protocol.Lizenz.Params.{Params}
use volnix_protocol.Lizenz.Invariant.{
  Edit-IsSound, untouched, IsSound, IsWithin, IsLicensed, Every-get,
}
use volnix_protocol.Lizenz.Invariant.Blocks.{Keeps, Keeps-bind, begin_blocker-Keeps}
use volnix_protocol.Lizenz.Invariant.Operations.{set-IsSound, update-IsSound, delete-IsSound}

module _ (n : Neighbours) (p : Params) where
  get-frame :
      (v : Text) (s : State n) → get_activated_lizenz n v s ≡ ((get_activated_lizenz n v s).0, s)
  unfolding get_activated_lizenz
  get-frame v s = ground arith

  get-Keeps : (v : Text) → Keeps n p (get_activated_lizenz n v)
  get-Keeps v s sound = rw get-frame sound

  guarded-Keeps :
      (b : Bool) (x : Error) (m : Handler n (Unit {0}))
      → Keeps n p m
      → Keeps n p (raise_if b x >> m)
  guarded-Keeps true x m kept s sound = sound
  guarded-Keeps false x m kept s sound = kept s sound

  get-found :
      (v : Text) (s : State n) (l : ActivatedLizenz)
      → (get_activated_lizenz n v s).0 ≡ ok l
      → KvStore.get v s.activated ≡ some l
  unfolding get_activated_lizenz
  get-found v s l r = ground arith

  get-IsWithin :
      (v : Text) (s : State n) (l : ActivatedLizenz)
      → (get_activated_lizenz n v s).0 ≡ ok l
      → IsSound n p s
      → IsWithin p l.amount
  get-IsWithin v s l r sound =
      (Every-get (IsLicensed p) v l s.activated sound.licensed (get-found v s l r)).within

  -- An operation on the licence of a validator, if there is one.
  on_licence-Keeps :
      (v : Text) (f : ActivatedLizenz → Handler n (Unit {0}))
      → ((l : ActivatedLizenz) → IsWithin p l.amount → Keeps n p (f l))
      → Keeps n p (get_activated_lizenz n v >>= f)
  on_licence-Keeps v f kept s sound = elim (Outcome-cases (get_activated_lizenz n v s).0) [
    | inl (l, found) ↦ rw found (
        kept l (get-IsWithin v s l found sound) (get_activated_lizenz n v s).1
          (get-Keeps v s sound))
    | inr (x, missing) ↦ rw missing (get-Keeps v s sound)
  ]

  module _ (h : Host) where
    activate_lzn-Keeps : (e : Env) (req : MsgActivateLzn) → Keeps n p (activate_lzn n h e req)
    unfolding activate_lzn
    activate_lzn-Keeps e req =
        let core = set_activated_lizenz n h e (requested_lizenz e req) in
        guarded-Keeps (is_empty req.validator) empty_validator
          (raise_if (is_empty req.amount) empty_amount >> core)
          (guarded-Keeps (is_empty req.amount) empty_amount core
            (set-IsSound n p h e (requested_lizenz e req)))

    deactivate_lzn-Keeps : (e : Env) (req : MsgDeactivateLzn) → Keeps n p (deactivate_lzn n h e req)
    unfolding deactivate_lzn
    deactivate_lzn-Keeps e req =
        let core : Handler n (Unit {0}) =
          get_activated_lizenz n req.validator >> delete_activated_lizenz n e req.validator in
        guarded-Keeps (is_empty req.validator) empty_validator
          (raise_if (is_empty req.reason) empty_reason >> core)
          (guarded-Keeps (is_empty req.reason) empty_reason core (
            on_licence-Keeps req.validator (λ _. delete_activated_lizenz n e req.validator)
              (λ _ _. delete-IsSound n p e req.validator)))

    set_eligible-Keeps : (b : Bool) (v : Text) → Keeps n p (set_eligible n h b v)
    unfolding set_eligible
    set_eligible-Keeps b v =
        on_licence-Keeps v
          (λ l. update_activated_lizenz n h (record l { is_eligible_for_rewards = b }))
          (λ l within. update-IsSound n p h (record l { is_eligible_for_rewards = b }) within)

    transfer_lizenz-Keeps : (e : Env) (from to : Text) → Keeps n p (transfer_lizenz n h e from to)
    unfolding transfer_lizenz
    transfer_lizenz-Keeps e from to =
        on_licence-Keeps from
          (λ l.
            delete_activated_lizenz n e from
            >> set_activated_lizenz n h e (record l { validator = to }))
          (λ l _.
            Keeps-bind n p (delete_activated_lizenz n e from)
              (λ _. set_activated_lizenz n h e (record l { validator = to }))
              (delete-IsSound n p e from) (λ _. set-IsSound n p h e (record l { validator = to })))

    touch-cases :
        (e : Env) (v : Text) (s : State n)
        → ((l : ActivatedLizenz) × ((get_activated_lizenz n v s).0 ≡ ok l)
            × (touch_lizenz n h e v s
                ≡ update_activated_lizenz n h (update_activated_lizenz_activity e.now l) s))
          ⊎ (touch_lizenz n h e v s ≡ (ok tt, s))
    unfolding touch_lizenz
    touch-cases e v s = elim (Outcome-cases (get_activated_lizenz n v s).0) [
      | inl (l, found) ↦ inl (l, found, ground arith)
      | inr (x, missing) ↦ inr (ground arith)
    ]

    touch_lizenz-Keeps : (e : Env) (v : Text) → Keeps n p (touch_lizenz n h e v)
    touch_lizenz-Keeps e v s sound = elim (touch-cases e v s) [
      | inl (l, found, same) ↦ rw same (
          update-IsSound n p h (update_activated_lizenz_activity e.now l)
            (get-IsWithin v s l found sound) s sound)
      | inr same ↦ rw same sound
    ]

    moa-frame :
        (e : Env) (v : Text) (s : State n)
        → ((touch_moa_status n e v s).1.params ≡ s.params)
          × ((touch_moa_status n e v s).1.activated ≡ s.activated)
          × ((touch_moa_status n e v s).1.deactivating ≡ s.deactivating)
    unfolding touch_moa_status set_moa_status get_moa_status
    moa-frame e v s = ground arith

    update_lizenz_activity-Keeps : (e : Env) (v : Text) → Keeps n p (update_lizenz_activity n h e v)
    unfolding update_lizenz_activity
    update_lizenz_activity-Keeps e v =
        Keeps-bind n p (touch_lizenz n h e v) (λ _. touch_moa_status n e v) (touch_lizenz-Keeps e v)
          (λ _ s sound.
            let (q, a, d) = moa-frame e v s in Edit-IsSound n p s _ (untouched q a d) sound)

-- The calls that the module takes from outside.
pub data Call : Type 0 where
  activate : Env → MsgActivateLzn → Call
  deactivate : Env → MsgDeactivateLzn → Call
  grant_rewards : Bool → Text → Call
  transfer_to : Env → Text → Text → Call
  note_activity : Env → Text → Call
  begin_block : Env → Call

module _ (n : Neighbours) (h : Host) where
  unfoldable pub call : Call → Handler n (Unit {0})
  call (activate e req) = activate_lzn n h e req
  call (deactivate e req) = deactivate_lzn n h e req
  call (grant_rewards b v) = set_eligible n h b v
  call (transfer_to e from to) = transfer_lizenz n h e from to
  call (note_activity e v) = update_lizenz_activity n h e v
  call (begin_block e) = begin_blocker n e

  -- Calls one after another, whatever they answer.
  unfoldable pub calls : List Call → State n → State n
  calls [] s = s
  calls (c ∷ cs) s = calls cs (call c s).1

  call-Keeps : (p : Params) (c : Call) → Keeps n p (call c)
  unfolding call
  call-Keeps p (activate e req) = activate_lzn-Keeps n p h e req
  call-Keeps p (deactivate e req) = deactivate_lzn-Keeps n p h e req
  call-Keeps p (grant_rewards b v) = set_eligible-Keeps n p h b v
  call-Keeps p (transfer_to e from to) = transfer_lizenz-Keeps n p h e from to
  call-Keeps p (note_activity e v) = update_lizenz_activity-Keeps n p h e v
  call-Keeps p (begin_block e) = begin_blocker-Keeps n p e

  -- Any messages, activity notes, transfers and block beginnings of x/lizenz, in any order and
  -- with any outcomes, keep the parameters as they are and the stores sound under them: every
  -- licence names its validator and an identity, every entry in deactivation its validator and a
  -- reason, the amount of each is a number from the minimum to the maximum of the parameters, the
  -- stores are sorted, and every licence stands under its own validator.
  pub calls-IsSound :
      (p : Params) (cs : List Call) (s : State n) → IsSound n p s → IsSound n p (calls cs s)
  unfolding calls
  calls-IsSound p [] s sound = sound
  calls-IsSound p (c ∷ cs) s sound = calls-IsSound p cs (call c s).1 (call-Keeps p c s sound)
