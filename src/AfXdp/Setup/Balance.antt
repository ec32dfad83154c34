-- ===== src/AfXdp/Setup/Balance.antt =====
-- What a socket object holds against the calls that gave it and took it back.
use abtrda.Action.{Keeps}
use abtrda.Prelude.{
  ℕ, ◌+◌, ◌≡◌, refl, sym, ap, ◌∙◌, subst, inl, inr, Bool, true, false, ◌&&◌, List, [], ◌∷◌, arith,
  if◌then◌else◌, Bool-cases,
}
use abtrda.AfXdp.Setup.{
  Resource, frames, umem, socket, program, same, XskCall, open_program, close_program, map_frames,
  unmap_frames, create_umem, delete_umem, create_socket, delete_socket, XskEnv, Xsk, hold, Sys,
  set_xsk, tell_xsk, ask_xsk, ask_count, ask_id,
}

pub data Effect : Type 0 where
  takes : Resource → Effect
  gives : Resource → Effect
  neither : Effect

-- What a call gives to its object when it succeeds, or takes back.
abbrev pub effect : XskCall → Effect
effect (open_program path) = takes program
effect close_program = gives program
effect (map_frames size) = takes frames
effect (unmap_frames size) = gives frames
effect (create_umem size fill comp frame) = takes umem
effect delete_umem = gives umem
effect (create_socket ifname queue rx tx m wakeup inhibit) = takes socket
effect delete_socket = gives socket
effect c = neither

abbrev is_take : Effect → Resource → Bool
is_take (takes q) r = same q r
is_take e r = false

abbrev is_give : Effect → Resource → Bool
is_give (gives q) r = same q r
is_give e r = false

abbrev pub bit : Bool → ℕ
bit b = if b then 1 else 0

-- How often a resource was given back.
abbrev pub returned : Resource → List XskCall → ℕ
returned r [] = 0
returned r (c ∷ cs) = bit (is_give (effect c) r) + returned r cs

-- How often a resource was obtained.
abbrev pub obtained : XskEnv → Resource → List XskCall → ℕ
obtained env r [] = 0
obtained env r (c ∷ cs) = bit (is_take (effect c) r && env.ok c cs) + obtained env r cs

pub same-eq : (q r : Resource) → same q r ≡ true → q ≡ r
unfolding same
same-eq frames frames e = refl
same-eq umem umem e = refl
same-eq socket socket e = refl
same-eq program program e = refl
same-eq frames umem e = absurd (ground (arith))
same-eq frames socket e = absurd (ground (arith))
same-eq frames program e = absurd (ground (arith))
same-eq umem frames e = absurd (ground (arith))
same-eq umem socket e = absurd (ground (arith))
same-eq umem program e = absurd (ground (arith))
same-eq socket frames e = absurd (ground (arith))
same-eq socket umem e = absurd (ground (arith))
same-eq socket program e = absurd (ground (arith))
same-eq program frames e = absurd (ground (arith))
same-eq program umem e = absurd (ground (arith))
same-eq program socket e = absurd (ground (arith))

-- A predicate that no call for messages or settings touches, nor an assignment of other members.
pub record IsSteadyXsk (Q : Sys → Type 0) : Type 0 where
  pub call_kept :
      (s : Sys) (c : XskCall) → effect c ≡ neither → Q s → Q (record s { calls = c ∷ s.calls })
  pub set_kept :
      (f : Xsk → Xsk)
      → ((n : Xsk) → (f n).holds ≡ n.holds)
      → (s : Sys) → Q s
      → Q (record s { xsk = f s.xsk })

module _ (env : XskEnv) (k : Resource → ℕ) where
  -- Each resource was obtained as often as it was returned, and once more while the object holds it; `k`
  -- counts what others hold.
  abbrev pub Balanced : Sys → Type 0
  Balanced s =
      (r : Resource) → obtained env r s.calls ≡ returned r s.calls + (bit (s.xsk.holds r) + k r)

  pub Balanced-steady : IsSteadyXsk Balanced
  Balanced-steady = record {
    call_kept = λ s c e q r. rw e (omega (arith, q r));
    set_kept = λ f l s q r. q r ∙ ap (λ h. returned r s.calls + (bit (h r) + k r)) (sym (l s.xsk));
  }

  pub take-Balanced :
      (q : Resource) (c : XskCall) (s : Sys)
      → effect c ≡ takes q
      → s.xsk.holds q ≡ false
      → Balanced s
      → Balanced (record { xsk = hold q (env.ok c s.calls) s.xsk; calls = c ∷ s.calls })
  take-Balanced q c s e h b r = elim (Bool-cases (same q r)) [
    | inl t ↦
        let f : s.xsk.holds r ≡ false = subst (λ x. s.xsk.holds x ≡ false) (same-eq q r t) h in
        let w = b r ∙ ap (λ x. returned r s.calls + (bit x + k r)) f in
        elim (Bool-cases (env.ok c s.calls)) [
          | inl o ↦ rw (e, t, o) (omega (arith, w))
          | inr o ↦ rw (e, t, o) (omega (arith, w))
        ]
    | inr t ↦ rw (e, t) (omega (arith, b r))
  ]

  pub give-Balanced :
      (q : Resource) (c : XskCall) (s : Sys)
      → effect c ≡ gives q
      → s.xsk.holds q ≡ true
      → Balanced s
      → Balanced (record { xsk = hold q false s.xsk; calls = c ∷ s.calls })
  give-Balanced q c s e h b r = elim (Bool-cases (same q r)) [
    | inl t ↦
        let f : s.xsk.holds r ≡ true = subst (λ x. s.xsk.holds x ≡ true) (same-eq q r t) h in
        let w = b r ∙ ap (λ x. returned r s.calls + (bit x + k r)) f in rw (e, t) (omega (arith, w))
    | inr t ↦ rw (e, t) (omega (arith, b r))
  ]

module _ (env : XskEnv) (Q : Sys → Type 0) (steady : IsSteadyXsk Q) where
  pub tell_xsk-Keeps : (c : XskCall) → effect c ≡ neither → Keeps Q (tell_xsk env c)
  tell_xsk-Keeps c e = record { kept = λ s q. steady.call_kept s c e q }

  pub ask_xsk-Keeps : (c : XskCall) → effect c ≡ neither → Keeps Q (ask_xsk env c)
  ask_xsk-Keeps c e = record { kept = λ s q. steady.call_kept s c e q }

  pub ask_count-Keeps : (c : XskCall) → effect c ≡ neither → Keeps Q (ask_count env c)
  ask_count-Keeps c e = record { kept = λ s q. steady.call_kept s c e q }

  pub ask_id-Keeps : (c : XskCall) → effect c ≡ neither → Keeps Q (ask_id env c)
  ask_id-Keeps c e = record { kept = λ s q. steady.call_kept s c e q }

  pub set_xsk-Keeps : (f : Xsk → Xsk) → ((n : Xsk) → (f n).holds ≡ n.holds) → Keeps Q (set_xsk f)
  set_xsk-Keeps f l = record { kept = λ s q. steady.set_kept f l s q }
