-- ===== src/Gateway/Proxy/Released.antt =====
-- gateway/proxy.go: a slot that is released leaves its limiter as it was.
use n2api.Base.{
  zero, suc, ◌+◌, ◌-◌, ◌≡◌, refl, sym, ap, ◌∙◌, subst, ◌⊎◌, inl, inr, Bool, true, false, arith,
  if◌then◌else◌, nat_eq, string_eq, insert, lookup-insert, lookup-delete, ℤ, pos, negsuc,
  int_beq_iff, int_eq, suc_ℤ, pred_ℤ,
}
use n2api.Gateway.Limits.Concurrency.{
  Acquired, refused, uncounted, held, InFlight, in_flight, gateway_acquire, gateway_release,
  api_key_acquire, api_key_release,
}

pub if-both :
    {A : Type 0} (P : A → Type 0) (c : Bool) (a b : A) → P a → P b → P (if c then a else b)
if-both P true a b h k = h
if-both P false a b h k = k

-- A slot that is taken for one identifier and released for it leaves all counts as they were.
pub api_key_release-acquire :
    (l l' : InFlight) (id limit j : ℤ)
    → api_key_acquire l id limit ≡ held l'
    → (k : InFlight) → ((i : ℤ) → in_flight i k ≡ in_flight i l')
    → in_flight j (api_key_release k id) ≡ in_flight j l
unfolding api_key_acquire api_key_release
api_key_release-acquire l l' id limit j e k same =
    let taken : insert id (in_flight id l + 1) l ≡ l' = ground arith in
    let at_id : in_flight id k ≡ in_flight id (insert id (in_flight id l + 1) l) =
      subst (λ (m : InFlight). in_flight id k ≡ in_flight id m) (sym taken) (same id) in
    let at_j : in_flight j k ≡ in_flight j (insert id (in_flight id l + 1) l) =
      subst (λ (m : InFlight). in_flight j k ≡ in_flight j m) (sym taken) (same j) in
    ground (
      arith,
      at_id,
      at_j,
      lookup-insert id j (in_flight id l + 1) l,
      lookup-insert id id (in_flight id l + 1) l,
      lookup-insert id j (in_flight id k - 1) k,
      lookup-delete id j k,
      int_beq_iff id j,
      int_beq_iff id id,
    )

pred_ℤ-suc_ℤ : (n : ℤ) → pred_ℤ (suc_ℤ n) ≡ n
pred_ℤ-suc_ℤ (pos n) = ground arith
pred_ℤ-suc_ℤ (negsuc zero) = refl
pred_ℤ-suc_ℤ (negsuc (suc n)) = ground arith

pub gateway_release-acquire :
    (n n' limit : ℤ) → gateway_acquire n limit ≡ held n' → gateway_release n' ≡ n
unfolding gateway_acquire gateway_release
gateway_release-acquire n n' limit e =
    let taken : suc_ℤ n ≡ n' = ground arith in ap pred_ℤ (sym taken) ∙ pred_ℤ-suc_ℤ n

pub Acquired-cases :
    {L : Type 0} (a : Acquired L) → (a ≡ refused) ⊎ (a ≡ uncounted) ⊎ ((l : L) × (a ≡ held l))
Acquired-cases refused = inl refl
Acquired-cases uncounted = inr (inl refl)
Acquired-cases (held l) = inr (inr (l, refl))
