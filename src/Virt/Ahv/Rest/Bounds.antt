-- ===== src/Virt/Ahv/Rest/Bounds.antt =====
-- How often a request is sent, and for how long the thread sleeps.
use virt_who.Base.{
  ℕ, zero, suc, ◌+◌, ◌-◌, ◌*◌, ◌≤◌, ◌<◌, ◌≡◌, refl, subst, ltb, true, false, Option, none, some,
  arith, Bool-cases, inl, inr,
}
use virt_who.Virt.Ahv.Rest.{
  Reply, verdict, is_retried, Sending, send_from, retry_count, send_request,
}

at_or_after : (P : ℕ → Type 0) → {i j : ℕ} → P i → i ≤ j → (i + 1 ≤ j → P j) → P j
at_or_after P {i} {j} p h q = elim (Bool-cases (ltb i j)) [
  | inl later ↦ q (ground (arith, later))
  | inr here ↦ subst P (ground (arith, here, h)) p
]

one_less : (i l : ℕ) → i + 1 ≤ l → l - i ≡ l - (i + 1) + 1
one_less i l h = omega (arith, h)

one_back : (n : ℕ) → suc n - 1 ≡ n
one_back n = omega arith

module _ (reply : ℕ → Reply) (retry_interval : ℕ) where
  -- A loop that began with a request after so many seconds, and could send so many more.
  pub record IsBounded (left i slept : ℕ) (s : Sending) : Type 0 where
    pub not_before : i ≤ s.last
    pub at_most : s.last ≤ i + left
    pub sleeps : s.slept ≡ slept + retry_interval * (s.last - i)
    pub earlier : (j : ℕ) → i ≤ j → j < s.last → is_retried (reply j) ≡ true
    pub ends : s.last < i + left → is_retried (reply s.last) ≡ false
    pub decided : s.sent ≡ verdict (reply s.last)

  -- One round more in front of a loop.
  go-on :
      {left i slept : ℕ}
      → {s : Sending} → is_retried (reply i) ≡ true
      → IsBounded left (i + 1) (slept + retry_interval) s
      → IsBounded (suc left) i slept s
  go-on {left} {i} {slept} {s} again b = record {
    not_before = omega (arith, b.not_before);
    at_most = omega (arith, b.at_most);
    sleeps = rw (one_less i s.last b.not_before) (omega (arith, b.sleeps));
    earlier = λ j h k.
        at_or_after (λ x. is_retried (reply x) ≡ true) again h (λ after. b.earlier j after k);
    ends = λ h. b.ends (omega (arith, h));
    decided = b.decided;
  }

  send_from-IsBounded :
      (left i slept : ℕ) → IsBounded left i slept (send_from reply retry_interval left i slept)
  unfolding send_from
  send_from-IsBounded zero i slept = record {
    not_before = omega arith;
    at_most = omega arith;
    sleeps = ground arith;
    earlier = λ j h k. absurd (omega (arith, h, k));
    ends = λ h. absurd (omega (arith, h));
    decided = refl;
  }
  send_from-IsBounded (suc left) i slept = elim (Bool-cases (is_retried (reply i))) [
    | inl again ↦
        rw (send_from, again)
          (go-on again (send_from-IsBounded left (i + 1) (slept + retry_interval)))
    | inr final ↦
        rw (send_from, final)
          record {
            not_before = omega arith;
            at_most = omega arith;
            sleeps = ground arith;
            earlier = λ j h k. absurd (omega (arith, h, k));
            ends = λ _. final;
            decided = refl;
          }
  ]

  -- When there is at least one round, `_send` ends, having sent a request for each round at most.
  -- It sleeps for the interval between two requests, and only there; it goes on behind each reply
  -- but the last when the reply is one to be tried again, it stops before the last round only at a
  -- reply that is not, and the last reply decides what it returns or raises.
  pub send_request-IsBounded :
      (retries : Option ℕ)
      → (default : ℕ) → 0 < default
      → (s : Sending) × (send_request reply retry_interval (retry_count retries default) ≡ some s)
        × IsBounded (retry_count retries default - 1) 0 0 s
  unfolding retry_count send_request
  send_request-IsBounded none zero h = absurd (omega (arith, h))
  send_request-IsBounded none (suc d) h = (_, refl, rw (one_back d) (send_from-IsBounded d 0 0))
  send_request-IsBounded (some zero) zero h = absurd (omega (arith, h))
  send_request-IsBounded (some zero) (suc d) h =
      (_, refl, rw (one_back d) (send_from-IsBounded d 0 0))
  send_request-IsBounded (some (suc n)) d h = (_, refl, rw (one_back n) (send_from-IsBounded n 0 0))
