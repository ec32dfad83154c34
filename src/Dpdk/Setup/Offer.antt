-- ===== src/Dpdk/Setup/Offer.antt =====
-- What a port's set-up offers to DPDK: a prepared port's device is on the list that rte_eal_init gets.
use Prim.Native.String
use Prim.Native.String.{String}
use text.Mathlib.Text
use text.Mathlib.TextEquality.{eq_iff}
use abtrda.Prelude.{
  ℕ, ◌≡◌, refl, sym, ap, ◌∙◌, subst, inl, inr, Bool, true, false, ◌&&◌, ◌||◌, List, [], ◌∷◌, ◌++◌,
  arith, Bool-cases,
}
use abtrda.Strings.{is_empty, before}
use abtrda.Dpdk.Eal.{Env, device, has_device, add_unique, front, flagged}
use abtrda.Dpdk.Eal.Once.{init_args}
use abtrda.Dpdk.Setup.{Port, Dpdk, allow_entry}
use abtrda.Dpdk.Setup.Quiet.{IsSteady}

-- Whether the arguments allow a device: its entry stands behind a `-a`.
unfoldable pub offers : String → List String → Bool
offers key [] = false
offers key (x ∷ []) = false
offers key (x ∷ e ∷ more) = (Text.◌==◌ x "-a" && Text.◌==◌ (device e) key) || offers key (e ∷ more)

or_true : (b : Bool) → (b || true) ≡ true
or_true true = refl
or_true false = refl

or_right : (a b : Bool) → a ≡ false → (a || b) ≡ true → b ≡ true
or_right true b e h = absurd (ground arith)
or_right false b e h = h

offers-cons :
    (key x : String) (args : List String) → offers key args ≡ true → offers key (x ∷ args) ≡ true
unfolding offers
offers-cons key x [] h = absurd (ground arith)
offers-cons key x (e ∷ more) h = rw h (or_true _)

pub offers-behind :
    (key : String) (front args : List String)
    → offers key args ≡ true
    → offers key (front ++ args) ≡ true
offers-behind key [] args h = h
offers-behind key (x ∷ front) args h =
    offers-cons key x (front ++ args) (offers-behind key front args h)

pub offers-flagged :
    (key : String) (allowed : List String)
    → has_device key allowed ≡ true
    → offers key (flagged "-a" allowed) ≡ true
unfolding has_device flagged offers
offers-flagged key [] h = absurd (ground arith)
offers-flagged key (e ∷ es) h = elim (Bool-cases (Text.◌==◌ (device e) key)) [
  | inl a ↦ rw a refl
  | inr a ↦ rw a (offers-cons key e (flagged "-a" es) (offers-flagged key es (or_right _ _ a h)))
]

after_comma : (t : String) → before 44 (String.◌++◌ "," t) ≡ ""
unfolding before
after_comma t = ap (before 44) (String.append.cons _ String.[] t)

device-append : (s t : String) → device (String.◌++◌ s (String.◌++◌ "," t)) ≡ device s
unfolding before
device-append String.[] t = ap (before 44) (String.append.nil (String.◌++◌ "," t)) ∙ after_comma t
device-append (String.◌∷◌ c s) t =
    ap (before 44) (String.append.cons c s (String.◌++◌ "," t)) ∙ rw (device-append s t) refl

pub device-allow_entry : (n : Port) → device (allow_entry n) ≡ device n.pci
device-allow_entry n = elim (Bool-cases (is_empty n.devargs)) [
  | inl e ↦ rw e refl
  | inr e ↦ rw e (device-append n.pci n.devargs)
]

has_device-append :
    (key : String) (v : List String) (more : List String)
    → has_device key v ≡ true
    → has_device key (v ++ more) ≡ true
unfolding has_device
has_device-append key [] more h = absurd (ground arith)
has_device-append key (e ∷ es) more h = elim (Bool-cases (Text.◌==◌ (device e) key)) [
  | inl a ↦ rw a refl
  | inr a ↦ rw a (has_device-append key es more (or_right _ _ a h))
]

has_device-last :
    (v : List String) (entry : String) → has_device (device entry) (v ++ (entry ∷ [])) ≡ true
unfolding has_device
has_device-last [] entry = rw ((eq_iff (device entry) (device entry)).1 refl) refl
has_device-last (e ∷ es) entry = rw (has_device-last es entry) (or_true _)

-- A registration keeps what was on the list, and its own device is on it then.
pub add_unique-grows :
    (key entry : String) (v : List String)
    → has_device key v ≡ true
    → has_device key (add_unique v entry) ≡ true
unfolding add_unique
add_unique-grows key entry v h = elim (Bool-cases (has_device (device entry) v)) [
  | inl a ↦ rw a h
  | inr a ↦ rw a (has_device-append key v (entry ∷ []) h)
]

pub add_unique-has_device :
    (entry : String) (v : List String) → has_device (device entry) (add_unique v entry) ≡ true
unfolding add_unique
add_unique-has_device entry v = elim (Bool-cases (has_device (device entry) v)) [
  | inl a ↦ rw a a
  | inr a ↦ rw a (has_device-last v entry)
]

-- Before the start of DPDK: no vdev is registered, `others` holds of the list, and once the port is prepared
-- its device is on the list too.
pub record Offered (env : Env) (others : List String → Type 0) (d : Dpdk) : Type 0 where
  pub unstarted : d.process.eal.eal_inited ≡ false
  pub no_inits : init_args env d.process.calls ≡ []
  pub no_vdevs : d.process.eal.vdevs ≡ []
  pub kept_others : others d.process.eal.allowed_bdfs
  pub listed :
      d.nic.prepared ≡ true → has_device (device d.nic.pci) d.process.eal.allowed_bdfs ≡ true

module _ (env : Env) (decimal : ℕ → String) (others : List String → Type 0) where
  pub Offered-steady : IsSteady (Offered env others)
  Offered-steady = record {
    calls_kept = λ d c p e q. record {
      unstarted = q.unstarted;
      no_inits = rw e q.no_inits;
      no_vdevs = q.no_vdevs;
      kept_others = q.kept_others;
      listed = q.listed;
    };
    nic_kept = λ f l d q. record {
      unstarted = q.unstarted;
      no_inits = q.no_inits;
      no_vdevs = q.no_vdevs;
      kept_others = q.kept_others;
      listed = λ e.
          subst (λ x. has_device (device x) d.process.eal.allowed_bdfs ≡ true) (sym (l d.nic).0)
            (q.listed (sym (l d.nic).1 ∙ e));
    };
  }
