-- ===== src/Wifi/Wait.antt =====
-- `waitForIp` of src/rbwifi.h.
use native.Mathlib.Nat.{div-eq-sub-div, lt-div-mul-add}
use rb3201_rbprotocol_librar.Prelude.{
  ℕ, zero, suc, ◌+◌, ◌-◌, ◌*◌, ◌/◌, ◌≤◌, ◌<◌, ◌≡◌, refl, sym, ap, ◌∙◌, Bool, true, false, ◌⊎◌, inl,
  inr, leb, ◌==◌, ==_iff, Bool-cases, arith,
}
use rb3201_rbprotocol_librar.Wifi.{wait_loop, wait_for_ip}

-- Whether and when an address is seen by polls that are `step` ticks apart: at the first poll that finds one, or not at all.
abbrev pub Seen : ℕ → (ℕ → ℕ) → ℕ → ℕ → Bool × ℕ → Type 0
Seen step ip_at now max_delay r =
    ((k : ℕ) × (r ≡ (true, now + k * step))
      × (k * step ≤ max_delay)
      × ((ip_at (now + k * step) == 0) ≡ false)
      × ((j : ℕ) → j < k → ip_at (now + j * step) ≡ 0))
    ⊎ ((r.0 ≡ false) × ((j : ℕ) → j * step ≤ max_delay → ip_at (now + j * step) ≡ 0))

later : (now step j : ℕ) → (now + step) + j * step ≡ now + suc j * step
later now step j = omega arith

product : (step j : ℕ) → suc j * step ≡ j * step + step
product step j = omega arith

-- A first poll that finds nothing, in front of others.
Seen-later :
    (step : ℕ) (ip_at : ℕ → ℕ) (now max_delay : ℕ) (r : Bool × ℕ)
    → ip_at now ≡ 0
    → step ≤ max_delay
    → Seen step ip_at (now + step) (max_delay - step) r
    → Seen step ip_at now max_delay r
Seen-later step ip_at now max_delay r e room (inl (k, found, inside, there, before)) = inl (
  suc k,
  found ∙ ap (λ t. (true, t)) (later now step k),
  omega (arith, product step k),
  rw (← later now step k) there,
  earlier,
)
  where
    earlier : (j : ℕ) → j < suc k → ip_at (now + j * step) ≡ 0
    earlier zero h = ap ip_at (omega arith) ∙ e
    earlier (suc j) h = ap ip_at (sym (later now step j)) ∙ before j (omega arith)
Seen-later step ip_at now max_delay r e room (inr (missed, none_)) = inr (missed, never)
  where
    never : (j : ℕ) → j * step ≤ max_delay → ip_at (now + j * step) ≡ 0
    never zero h = ap ip_at (omega arith) ∙ e
    never (suc j) h = ap ip_at (sym (later now step j)) ∙ none_ j (omega (arith, product step j, h))

-- The last poll.
Seen-last :
    (step : ℕ) (ip_at : ℕ → ℕ) (now max_delay : ℕ)
    → ip_at now ≡ 0
    → max_delay < step
    → Seen step ip_at now max_delay (false, now)
Seen-last step ip_at now max_delay e short = inr (refl, never)
  where
    never : (j : ℕ) → j * step ≤ max_delay → ip_at (now + j * step) ≡ 0
    never zero h = ap ip_at (omega arith) ∙ e
    never (suc j) h = absurd (omega (arith, product step j, h, short))

Seen-now :
    (step : ℕ) (ip_at : ℕ → ℕ) (now max_delay : ℕ)
    → (ip_at now == 0) ≡ false
    → Seen step ip_at now max_delay (true, now)
Seen-now step ip_at now max_delay there =
    let same : now ≡ now + 0 * step = omega arith in
    inl (0, ap (λ t. (true, t)) same, omega arith, rw (← same) there, λ j h. absurd (omega arith))

wait_loop-Seen :
    (fuel step : ℕ) (ip_at : ℕ → ℕ) (now max_delay : ℕ)
    → 1 ≤ step
    → max_delay / step ≡ fuel
    → Seen step ip_at now max_delay (wait_loop fuel step ip_at now max_delay)
unfolding wait_loop
wait_loop-Seen zero step ip_at now max_delay some_step rounds =
    let short : max_delay < step =
      omega (arith, rw rounds at (lt-div-mul-add {a = max_delay} {b = step} some_step)) in
    elim (Bool-cases (ip_at now == 0)) [
      | inl e ↦ rw e (Seen-last step ip_at now max_delay ((==_iff (ip_at now) 0).0 e) short)
      | inr there ↦ rw there (Seen-now step ip_at now max_delay there)
    ]
wait_loop-Seen (suc fuel) step ip_at now max_delay some_step rounds =
    elim (Bool-cases (ip_at now == 0)) [
      | inr there ↦ rw there (Seen-now step ip_at now max_delay there)
      | inl e ↦ elim (Bool-cases (leb step max_delay)) [
        | inr short ↦
            rw (e, short)
              (Seen-last step ip_at now max_delay ((==_iff (ip_at now) 0).0 e)
                (ground (arith, short)))
        | inl room ↦
            let enough : step ≤ max_delay = ground (arith, room) in
            let less : (max_delay - step) / step ≡ fuel =
              omega (arith, rounds, div-eq-sub-div {m = step} {n = max_delay} some_step enough) in
            rw (e, room)
              (Seen-later step ip_at now max_delay
                (wait_loop fuel step ip_at (now + step) (max_delay - step))
                ((==_iff (ip_at now) 0).0 e) enough
                (wait_loop-Seen fuel step ip_at (now + step) (max_delay - step) some_step less))
      ]
    ]

-- `waitForIp` comes to an end: it gives true at the first poll that finds an address, no later than the longest delay, or
-- false if no poll up to then finds one; the polls are `step` ticks apart. Between two polls lies a tick
-- at least.
pub wait_for_ip-Seen :
    (step : ℕ) (ip_at : ℕ → ℕ) (max_delay : ℕ)
    → 1 ≤ step
    → Seen step ip_at 0 max_delay (wait_for_ip step ip_at max_delay)
unfolding wait_for_ip
wait_for_ip-Seen step ip_at max_delay some_step =
    wait_loop-Seen (max_delay / step) step ip_at 0 max_delay some_step refl
