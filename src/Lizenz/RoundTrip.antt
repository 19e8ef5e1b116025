-- ===== src/Lizenz/RoundTrip.antt =====
-- ActivateLZN and DeactivateLZN of x/lizenz/keeper/msg_server.go, one after the other.
use volnix_protocol.Base.{
  ℕ, ◌≡◌, inl, inr, ap, ◌∙◌, true, false, none, some, Text, is_empty, ok, err, arith, Outcome-cases,
  Option-cases, Bool-cases,
}
use volnix_protocol.Strconv.{parse_uint, max_uint64, NumError}
use volnix_protocol.KvStore.{text_key}
use volnix_protocol.KvStore
use volnix_protocol.Host.{Host, Env}
use volnix_protocol.Lizenz.Types.{ActivatedLizenz}
use volnix_protocol.Lizenz.Neighbours.{Neighbours}
use volnix_protocol.Lizenz.Keeper.{
  State, set_activated_lizenz, delete_activated_lizenz, get_activated_lizenz, transfer,
}
use volnix_protocol.Lizenz.Messages.{
  MsgActivateLzn, MsgDeactivateLzn, requested_lizenz, activate_lzn, deactivate_lzn,
}
use volnix_protocol.Lizenz.Activation.{set_activated_lizenz-Activated}

module _ (n : Neighbours) (h : Host) where
  activate_lzn-ok :
      (e : Env) (req : MsgActivateLzn) (s : State n)
      → (activate_lzn n h e req s).0 ≡ ok tt
      → ((set_activated_lizenz n h e (requested_lizenz e req) s).0 ≡ ok tt)
        × ((activate_lzn n h e req s).1 ≡ (set_activated_lizenz n h e (requested_lizenz e req) s).1)
  unfolding activate_lzn
  activate_lzn-ok e req s r = ground arith

  -- What becomes of the tokens: they are asked back from the bank, whatever it answers, or nothing
  -- is asked, without a bank, an address or an amount that ParseUint reads.
  pub data Unlocked (e : Env) (validator amount : Text) (w w' : n.World) : Type 0 where
    asked :
        (addr : Text) (value : ℕ)
        → n.has_bank ≡ true
        → e.account validator ≡ some addr
        → parse_uint max_uint64 amount ≡ ok value
        → w' ≡ (n.unlock addr value w).1
        → Unlocked e validator amount w w'
    no_bank : n.has_bank ≡ false → w' ≡ w → Unlocked e validator amount w w'
    no_address : e.account validator ≡ none → w' ≡ w → Unlocked e validator amount w w'
    no_amount :
        (x : NumError)
        → parse_uint max_uint64 amount ≡ err x
        → w' ≡ w
        → Unlocked e validator amount w w'

  -- All that an accepted deactivation presupposes and does.
  pub record Deactivated (e : Env) (req : MsgDeactivateLzn) (s s' : State n) : Type 0 where
    pub has_validator : is_empty req.validator ≡ false
    pub has_reason : is_empty req.reason ≡ false
    pub licence : ActivatedLizenz
    pub found : KvStore.get req.validator s.activated ≡ some licence
    pub world : n.World
    pub unlocked : Unlocked e req.validator licence.amount s.world world
    pub after :
        s' ≡ record s { activated = KvStore.delete req.validator s.activated; world = world }

  unlock-Unlocked :
      (e : Env) (v amount : Text) (s : State n)
      → Unlocked e v amount s.world (transfer n n.unlock e v amount s).world
  unlock-Unlocked e v amount s = elim (Bool-cases n.has_bank) [
    | inr unset ↦ no_bank unset (ground arith)
    | inl set ↦ elim (Option-cases (e.account v)) [
      | inl unknown ↦ no_address unknown (ground arith)
      | inr (addr, known) ↦ elim (Outcome-cases (parse_uint max_uint64 amount)) [
        | inr (x, bad) ↦ no_amount x bad (ground arith)
        | inl (value, read) ↦ asked addr value set known read (ground arith)
      ]
    ]
  ]

  -- An accepted deactivation names a validator with a licence and gives a reason; it removes the
  -- licence at once, whatever comes of asking its amount back, and puts nothing into deactivation.
  pub deactivate_lzn-Deactivated :
      (e : Env) (req : MsgDeactivateLzn) (s : State n)
      → (deactivate_lzn n h e req s).0 ≡ ok tt
      → Deactivated e req s (deactivate_lzn n h e req s).1
  unfolding deactivate_lzn delete_activated_lizenz get_activated_lizenz
  deactivate_lzn-Deactivated e req s r =
      elim (Option-cases (KvStore.get req.validator s.activated)) [
        | inl missing ↦ absurd (ground arith)
        | inr (l, found) ↦ record {
          has_validator = ground arith;
          has_reason = ground arith;
          licence = l;
          found = found;
          world = (transfer n n.unlock e req.validator l.amount s).world;
          unlocked = unlock-Unlocked e req.validator l.amount s;
          after = ground arith;
        }
      ]

  -- A licence that is activated and then deactivated for the same validator, both accepted,
  -- leaves what the store of licences holds for each validator as it was before.
  pub deactivate-activate :
      (e e' : Env) (req : MsgActivateLzn) (back : MsgDeactivateLzn) (s : State n)
      → back.validator ≡ req.validator
      → (activate_lzn n h e req s).0 ≡ ok tt
      → (deactivate_lzn n h e' back (activate_lzn n h e req s).1).0 ≡ ok tt
      → (v : Text)
      → KvStore.get v (deactivate_lzn n h e' back (activate_lzn n h e req s).1).1.activated
        ≡ KvStore.get v s.activated
  deactivate-activate e e' req back s same r r' v =
      let (set_ok, goes_on) = activate_lzn-ok e req s r in
      let done = set_activated_lizenz-Activated n h e (requested_lizenz e req) s set_ok in
      let undone = deactivate_lzn-Deactivated e' back (activate_lzn n h e req s).1 r' in
      let stored : (activate_lzn n h e req s).1.activated
          ≡ KvStore.set req.validator (requested_lizenz e req) s.activated =
        ap (λ (t : State n). t.activated) (goes_on ∙ done.after) in
      let removed : (deactivate_lzn n h e' back (activate_lzn n h e req s).1).1.activated
          ≡ KvStore.delete back.validator (activate_lzn n h e req s).1.activated =
        ap (λ (t : State n). t.activated) undone.after in
      rw (removed, stored, same)
        (KvStore.get-delete-set v req.validator (requested_lizenz e req) s.activated done.fresh)
