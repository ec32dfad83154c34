-- ===== src/Dpdk/Eal/Once.antt =====
-- rte_eal_init in what a process asked: the calls that succeeded, and the steps that make none.
use Prim.Native.String.{String}
use abtrda.Action.{
  follow, follow-some, ◌>>=◌, ◌>>◌, pure, guard, when, Keeps, Keeps-bind, Keeps-pure, Keeps-if,
}
use abtrda.Prelude.{
  ℕ, ◌≡◌, refl, sym, ap, ◌∙◌, subst, inl, inr, Bool, true, false, not, ◌&&◌, Option, none, some,
  List, [], ◌∷◌, ◌==◌, if◌then◌else◌, Bool-cases,
}
use abtrda.Dpdk.Eal.{
  Call, Env, Eal, Process, add_unique, control_thread_core, is_nil, set_eal, add_allowed_bdf, ask,
  ask_num, ask_text, require, require_num, require_pair, tell, eal_args, parked_init, first_init,
  eal_init, bind_to_vfio, rte_eal_init, get_affinity, set_affinity,
}

abbrev pub is_init : Call → Bool
is_init (rte_eal_init args) = true
is_init c = false

abbrev args_of : Call → List String
args_of (rte_eal_init args) = args
args_of c = []

module _ (env : Env) where
  -- The arguments of the calls that succeeded, the latest first.
  abbrev pub init_args : List Call → List (List String)
  init_args [] = []
  init_args (c ∷ cs) = if is_init c && env.ok c cs then args_of c ∷ init_args cs else init_args cs

abbrev pub called : Call → Process → Process
called c p = record p { calls = c ∷ p.calls }

-- What no call but rte_eal_init touches.
abbrev pub IsQuiet : (Process → Type 0) → Type 0
IsQuiet P = (c : Call) (p : Process) → is_init c ≡ false → P p → P (called c p)

module _ (env : Env) (decimal : ℕ → String) (P : Process → Type 0) (quiet : IsQuiet P) where
  pub ask-Keeps : (c : Call) → is_init c ≡ false → Keeps P (ask env decimal c)
  ask-Keeps c e = record { kept = λ p h. quiet c p e h }

  pub tell-Keeps : (c : Call) → is_init c ≡ false → Keeps P (tell env decimal c)
  tell-Keeps c e = Keeps-bind P (ask-Keeps c e) λ b. Keeps-pure P tt

  pub ask_num-Keeps : (c : Call) → is_init c ≡ false → Keeps P (ask_num env decimal c)
  ask_num-Keeps c e = record { kept = λ p h. quiet c p e h }

  pub ask_text-Keeps : (c : Call) → is_init c ≡ false → Keeps P (ask_text env decimal c)
  ask_text-Keeps c e = record { kept = λ p h. quiet c p e h }

  pub require_num-Keeps : (c : Call) → is_init c ≡ false → Keeps P (require_num env decimal c)
  require_num-Keeps c e = record { kept = λ p h. quiet c p e h }

  pub require_pair-Keeps : (c : Call) → is_init c ≡ false → Keeps P (require_pair env decimal c)
  require_pair-Keeps c e = record { kept = λ p h. quiet c p e h }

  guard-Keeps : (b : Bool) → Keeps P (guard b)
  guard-Keeps true = record { kept = λ p h. h }
  guard-Keeps false = record { kept = λ p h. h }

  pub require-Keeps : (c : Call) → is_init c ≡ false → Keeps P (require env decimal c)
  require-Keeps c e = Keeps-bind P (ask-Keeps c e) guard-Keeps

  pub ruleset quiet_steps = (
    tell-Keeps, ask-Keeps, ask_num-Keeps, ask_text-Keeps, require_num-Keeps, require_pair-Keeps,
    require-Keeps, Keeps-bind, Keeps-if, Keeps-pure,
  )

  pub bind_to_vfio-Keeps : (bdf : String) → Keeps P (bind_to_vfio env decimal bdf)
  unfolding bind_to_vfio
  bind_to_vfio-Keeps bdf = search (quiet_steps) depth 12

module _ (env : Env) (decimal : ℕ → String) where
  -- Of the calls round it only rte_eal_init itself counts, and the answer is its own.
  pub parked_init-counts :
      (args : List String) (park : Bool) (p : Process)
      → let r = parked_init env decimal args park p in
        (done : Bool) × (r.0 ≡ some done)
        × (r.1.eal ≡ p.eal)
        × (init_args env r.1.calls
            ≡ (if done then args ∷ init_args env p.calls else init_args env p.calls))
  unfolding parked_init ◌>>=◌
  parked_init-counts args false p = (env.ok (rte_eal_init args) p.calls, refl, refl, refl)
  parked_init-counts args true p =
      let q = called (set_affinity 1) (called get_affinity p) in
      elim (Bool-cases (env.ok get_affinity p.calls)) [
        | inl e ↦ (env.ok (rte_eal_init args) q.calls, rw e refl, rw e refl, rw e refl)
        | inr e ↦ (env.ok (rte_eal_init args) q.calls, rw e refl, rw e refl, rw e refl)
      ]

-- The devices that the first start offers: the caller's own when no vdev was registered.
abbrev pub offered : String → Eal → Eal
offered bdf e =
    if is_nil e.vdevs then record e { allowed_bdfs = add_unique e.allowed_bdfs bdf } else e

abbrev pub marked : Bool → Eal → Eal
marked b e = record e { eal_inited = b }

pub offered-eal_inited : (bdf : String) (e : Eal) → (offered bdf e).eal_inited ≡ e.eal_inited
offered-eal_inited bdf e = elim (Bool-cases (is_nil e.vdevs)) [
  | inl n ↦ rw n refl
  | inr n ↦ rw n refl
]

pub record Started (env : Env) (decimal : ℕ → String) (bdf : String) (lcore : ℕ) (p : Process)
    (r : Option (Unit {0}) × Process) : Type 0 where
  pub done : Bool
  pub outcome : r.0 ≡ (if done then some tt else none)
  pub now : r.1.eal ≡ marked done (offered bdf p.eal)
  pub inits : init_args env r.1.calls ≡ (
      if done
      then eal_args env decimal (offered bdf p.eal) lcore ∷ init_args env p.calls
      else init_args env p.calls)

offer-now :
    (bdf : String) (p : Process)
    → when (is_nil p.eal.vdevs) (add_allowed_bdf bdf) p
      ≡ (some tt, record p { eal = offered bdf p.eal })
offer-now bdf p = elim (Bool-cases (is_nil p.eal.vdevs)) [ inl e ↦ rw e refl | inr e ↦ rw e refl ]

module _ (env : Env) (decimal : ℕ → String) where
  finished :
      (bdf : String) (lcore : ℕ) (p : Process) (done : Bool) (t : Process)
      → p.eal.eal_inited ≡ false
      → t.eal ≡ offered bdf p.eal
      → init_args env t.calls ≡ (
          if done
          then eal_args env decimal (offered bdf p.eal) lcore ∷ init_args env p.calls
          else init_args env p.calls)
      → Started env decimal bdf lcore p
          ((guard done >> set_eal (λ e. record e { eal_inited = true })) t)
  unfolding ◌>>=◌
  finished bdf lcore p true t i e h = record {
    done = true;
    outcome = refl;
    now = ap (marked true) e;
    inits = h;
  }
  finished bdf lcore p false t i e h = record {
    done = false;
    outcome = refl;
    now = e ∙ ap (λ b. marked b (offered bdf p.eal)) (offered-eal_inited bdf p.eal ∙ i);
    inits = h;
  }

  pub first_init-Started :
      (bdf : String) (lcore : ℕ) (p : Process)
      → p.eal.eal_inited ≡ false
      → Started env decimal bdf lcore p (first_init env decimal bdf lcore p)
  unfolding first_init ◌>>=◌
  first_init-Started bdf lcore p i =
      let q = record p { eal = offered bdf p.eal } in
      let args = eal_args env decimal q.eal lcore in
      let c = parked_init-counts env decimal args (not (control_thread_core == lcore)) q in
      let r = parked_init env decimal args (not (control_thread_core == lcore)) q in
      let finish = (λ (done : Bool). guard done >> set_eal (λ e. record e { eal_inited = true })) in
      let run : first_init env decimal bdf lcore p ≡ finish c.0 r.1 =
        ap
          (follow (λ _ s. follow finish (
            parked_init env decimal (eal_args env decimal s.eal lcore)
              (not (control_thread_core == lcore)) s)))
          (offer-now bdf p)
        ∙ follow-some finish r c.0 c.1 in
      subst (Started env decimal bdf lcore p) (sym run) (finished bdf lcore p c.0 r.1 i c.2 c.3)

  pub eal_init-fresh :
      (bdf : String) (lcore : ℕ) (p : Process)
      → p.eal.eal_inited ≡ false
      → eal_init env decimal bdf lcore p ≡ first_init env decimal bdf lcore p
  unfolding eal_init ◌>>=◌
  eal_init-fresh bdf lcore p e =
      ap (λ b. (if b then pure tt else first_init env decimal bdf lcore) p) e

  pub eal_init-again :
      (bdf : String) (lcore : ℕ) (p : Process)
      → p.eal.eal_inited ≡ true
      → eal_init env decimal bdf lcore p ≡ (some tt, p)
  unfolding eal_init ◌>>=◌
  eal_init-again bdf lcore p e =
      ap (λ b. (if b then pure tt else first_init env decimal bdf lcore) p) e
