-- ===== src/Programs/SockaddrTest/Passes.antt =====
-- Which of the tests pass.
use bounce.Prelude.{
  ℕ, ◌≡◌, ap₂, Bool, ◌&&◌, ◌==◌, if◌then◌else◌, true, false, Option, List, [], ◌∷◌, arith,
}
use bounce.SockAddress.{
  from_port, from_ip, blank, store_sin_addr, get_port, af_inet, af_inet6, swap_bytes,
}
use bounce.Programs.SockaddrTest.{addr3, addr4, families, ports, link_local, public_ip}

module _ (inet_pton : ℕ → List ℕ → Option (List ℕ)) (inet_ntop : ℕ → List ℕ → List ℕ) where
  from_ip-kept :
      (first : ℕ) (text : List ℕ) (port : ℕ) (ipv6 : Bool)
      → ((from_ip inet_pton inet_ntop (first ∷ text) port ipv6).family
          ≡ (if ipv6 then af_inet6 else af_inet))
        × ((from_ip inet_pton inet_ntop (first ∷ text) port ipv6).port ≡ (blank port).port)
  unfolding from_ip store_sin_addr
  from_ip-kept first text port ipv6 = (ground arith, ground arith)

  -- Whatever inet_pton reads, the tests of families and ports pass.
  pub families-ports : (families inet_pton inet_ntop ≡ true) × (ports inet_pton inet_ntop ≡ true)
  unfolding families ports addr3 addr4 get_port from_port blank
  families-ports =
      let (family3, port3) = from_ip-kept 102 (tail link_local) 8888 true in
      let (family4, port4) = from_ip-kept 49 (tail public_ip) 7777 false in
      (
        ap₂ (λ a b. a == af_inet6 && b == af_inet) family3 family4,
        ap₂ (λ a b. swap_bytes a == 8888 && swap_bytes b == 7777) port3 port4,
      )
    where
      tail : List ℕ → List ℕ
      tail [] = []
      tail (c ∷ text) = text
