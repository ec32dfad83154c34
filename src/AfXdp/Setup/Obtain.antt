-- ===== src/AfXdp/Setup/Obtain.antt =====
-- The steps of init that obtain a resource: the object did not hold it before.
use abtrda.Action.{◌>>=◌, pure, when, Gives, Gives-kept, Gives-bind, Gives-each}
use mathlib.Core.Option.{some-injective}
use abtrda.Prelude.{
  ℕ, ◌≡◌, refl, ap, ◌∙◌, inl, inr, Bool, true, false, not, ◌&&◌, some, arith, if◌then◌else◌,
  Bool-cases,
}
use abtrda.AfXdp.Setup.{
  Resource, program, same, XskCall, open_program, attach_program, close_program, XskEnv, Xsk, hold,
  Sys, set_xsk, ask_xsk, acquire, give_back, load_xdp_program,
}
use abtrda.AfXdp.Setup.Balance.{
  takes, effect, Balanced, Balanced-steady, take-Balanced, give-Balanced, IsSteadyXsk,
  ask_xsk-Keeps,
}
use abtrda.AfXdp.Setup.Steps.{gets-Keeps}

-- The resources of `l` but one.
abbrev pub without : Resource → (Resource → Bool) → Resource → Bool
without q l r = l r && not (same q r)

module _ (env : XskEnv) (k : Resource → ℕ) where
  -- Nothing of `l` is held.
  abbrev pub Lacks : (Resource → Bool) → Sys → Type 0
  Lacks l s = Balanced env k s × ((r : Resource) → l r ≡ true → s.xsk.holds r ≡ false)

  pub Lacks-steady : (l : Resource → Bool) → IsSteadyXsk (Lacks l)
  Lacks-steady l = record {
    call_kept = λ s c e q. ((Balanced-steady env k).call_kept s c e q.0, q.1);
    set_kept = λ f h s q.
        ((Balanced-steady env k).set_kept f h s q.0, λ r e. ap (λ x. x r) (h s.xsk) ∙ q.1 r e);
  }

  held-apart :
      (q : Resource) (b : Bool) (l : Resource → Bool) (n : Xsk)
      → ((r : Resource) → l r ≡ true → n.holds r ≡ false)
      → (r : Resource) → without q l r ≡ true
      → (hold q b n).holds r ≡ false
  held-apart q b l n h r e = elim (Bool-cases (same q r)) [
    | inl t ↦ absurd (ground (arith, t, e))
    | inr t ↦ rw t (h r (ground (arith, t, e)))
  ]

  held-off :
      (q : Resource) (l : Resource → Bool) (n : Xsk)
      → ((r : Resource) → l r ≡ true → n.holds r ≡ false)
      → (r : Resource) → l r ≡ true
      → (hold q false n).holds r ≡ false
  held-off q l n h r e = elim (Bool-cases (same q r)) [ inl t ↦ rw t refl | inr t ↦ rw t (h r e) ]

  pub acquire-Lacks :
      (q : Resource) (c : XskCall) (l : Resource → Bool)
      → effect c ≡ takes q
      → l q ≡ true
      → (s : Sys) → Lacks l s
      → Lacks (without q l) (acquire env q c s).1
  acquire-Lacks q c l e m s h =
      (take-Balanced env k q c s e (h.1 q m) h.0, held-apart q (env.ok c s.calls) l s.xsk h.1)

  pub acquire-Gives :
      (q : Resource) (c : XskCall) (l : Resource → Bool)
      → effect c ≡ takes q
      → l q ≡ true
      → Gives (Lacks l) (acquire env q c) (Lacks (without q l))
  acquire-Gives q c l e m = record { given = λ s h a t. acquire-Lacks q c l e m s h }

  -- What is held after the program was opened, or not.
  Opened : Bool → Sys → Type 0
  Opened b s = Lacks (without program (λ r. true)) s × (s.xsk.holds program ≡ b)

  Opened-Gives :
      (c : XskCall)
      → effect c ≡ takes program
      → (s : Sys) → Lacks (λ r. true) s
      → (b : Bool) → (acquire env program c s).0 ≡ some b
      → Opened b (acquire env program c s).1
  unfolding same Opened
  Opened-Gives c e s h b t = (acquire-Lacks program c _ e refl s h, some-injective _ _ t)

  Opened-steady : (b : Bool) → IsSteadyXsk (Opened b)
  unfolding Opened
  Opened-steady b = record {
    call_kept = λ s c e q. ((Lacks-steady _).call_kept s c e q.0, q.1);
    set_kept =
        λ f h s q. ((Lacks-steady _).set_kept f h s q.0, ap (λ x. x program) (h s.xsk) ∙ q.1);
  }

  closed-Gives :
      (attached : Bool)
      → Gives
          (Opened true)
          (if attached
            then set_xsk (λ n. record n { custom_bpf = true })
            else give_back env program close_program)
          (Lacks (without program (λ r. true)))
  unfolding Opened
  closed-Gives true = record {
    given = λ s q a e.
        (Lacks-steady _).set_kept (λ n. record n { custom_bpf = true }) (λ n. refl) s q.0;
  }
  closed-Gives false = record {
    given = λ s q a e. (
      give-Balanced env k program close_program s refl q.1 q.0.0,
      held-off program _ s.xsk q.0.1,
    );
  }

  tried-Gives :
      (opened : Bool) (index : ℕ)
      → Gives
          (Opened opened)
          (if opened
            then (do
              attached ← ask_xsk env (attach_program index)
              if attached
                  then set_xsk (λ n. record n { custom_bpf = true })
                  else give_back env program close_program)
            else pure tt)
          (Lacks (without program (λ r. true)))
  unfolding Opened
  tried-Gives true index =
      Gives-bind (Gives-kept (ask_xsk-Keeps env _ (Opened-steady true) (attach_program index) refl))
        closed-Gives
  tried-Gives false index = record { given = λ s q a e. q.0 }

  load_xdp_program-Gives :
      Gives (Lacks (λ r. true)) (load_xdp_program env) (Lacks (without program (λ r. true)))
  unfolding load_xdp_program
  load_xdp_program-Gives = Gives-bind (Gives-kept (gets-Keeps _ _)) λ n.
      Gives-each Opened (Opened-Gives (open_program n.bpf_prog_path) refl)
        λ opened. tried-Gives opened n.ifindex

  unloaded-Lacks : (s : Sys) → Lacks (λ r. true) s → Lacks (without program (λ r. true)) s
  unloaded-Lacks s q = (q.0, λ r e. q.1 r refl)

  pub maybe_loaded-Gives :
      (b : Bool)
      → Gives
          (Lacks (λ r. true))
          (when b (load_xdp_program env))
          (Lacks (without program (λ r. true)))
  maybe_loaded-Gives true = load_xdp_program-Gives
  maybe_loaded-Gives false = record { given = λ s q a e. unloaded-Lacks s q }
