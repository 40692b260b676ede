-- ===== src/Connector/Backoff.antt =====
-- The delay between the retries of a connector.
use rfcs.Common.{length, ℕ, suc, ◌*◌, ◌^◌, ◌≤◌, ◌≡◌, min, ap, ◌∙◌, sym, true, List, [], ◌∷◌, arith}
use native.Mathlib.Nat.{pow-suc, mul_assoc}
use rfcs.Connector.{Connector, retry, max_retry_delay}

-- Failures in a row, each with its socket.
unfoldable pub retries : List ℕ → Connector → Connector
unfolding retry
retries [] c = c
retries (sockfd ∷ fds) c = retries fds (retry sockfd c)

unfoldable pub doubled : List ℕ → ℕ → ℕ
doubled [] d = d
doubled (sockfd ∷ fds) d = doubled fds (d * 2)

capped :
    (fds : List ℕ) (d : ℕ)
    → min (doubled fds (min d max_retry_delay)) max_retry_delay
      ≡ min (doubled fds d) max_retry_delay
unfolding doubled
capped [] d = omega arith
capped (s ∷ fds) d =
    sym (capped fds (min d max_retry_delay * 2))
    ∙ ap (λ k. min (doubled fds k) max_retry_delay) (omega arith)
    ∙ capped fds (d * 2)

twice_pow : (n : ℕ) → 2 * 2 ^ n ≡ 2 ^ suc n
twice_pow n = omega (arith, pow-suc 2 n)

doubled-pow : (fds : List ℕ) (d : ℕ) → doubled fds d ≡ d * 2 ^ length fds
unfolding doubled
doubled-pow [] d = omega arith
doubled-pow (s ∷ fds) d =
    doubled-pow fds (d * 2)
    ∙ (mul_assoc d 2 (2 ^ length fds) ∙ ap (λ k. d * k) (twice_pow (length fds)))

retry-connect :
    (sockfd : ℕ) (c : Connector)
    → c.connect ≡ true
    → ((retry sockfd c).connect ≡ true)
      × ((retry sockfd c).retry_delay ≡ min (c.retry_delay * 2) max_retry_delay)
unfolding retry
retry-connect sockfd c on = ground arith

-- A connector that has not been stopped doubles its delay with each failure in a row, up to 30000
-- milliseconds.
pub retries-doubled :
    (fds : List ℕ) (c : Connector)
    → c.connect ≡ true
    → c.retry_delay ≤ max_retry_delay
    → ((retries fds c).retry_delay ≡ min (c.retry_delay * 2 ^ length fds) max_retry_delay)
unfolding retries doubled
retries-doubled fds c on most =
    go fds c on most ∙ ap (λ k. min k max_retry_delay) (doubled-pow fds c.retry_delay)
  where
    go :
        (fds : List ℕ) (c : Connector)
        → c.connect ≡ true
        → c.retry_delay ≤ max_retry_delay
        → (retries fds c).retry_delay ≡ min (doubled fds c.retry_delay) max_retry_delay
    go [] c on most = omega arith
    go (s ∷ fds) c on most =
        let (still, twice) = retry-connect s c on in
        go fds (retry s c) still (omega (arith, twice))
        ∙ ap (λ k. min (doubled fds k) max_retry_delay) twice
        ∙ capped fds (c.retry_delay * 2)
