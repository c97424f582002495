-- ===== src/Programs/SockaddrTest.antt =====
-- bounce/test/sockaddr_test.cc: the tests of addresses, as tests into Bool. `any` is the type of a text.
pub mod Passes
pub mod Accepts
use bounce.Prelude.{ℕ, Bool, true, false, ◌&&◌, Option, none, some, List, [], ◌∷◌, ◌==◌}
use bounce.SockAddress.{SockAddress, af_inet, af_inet6, from_port, from_ip, ip, get_port}
use bounce.Programs.BufferTest.{streq}

-- "fe80::1778:fdc1:16f9:b739", "120.24.89.156", "0.0.0.0", "127.0.0.1" and "::1".
abbrev pub link_local : List ℕ
link_local =
    102 ∷ 101 ∷ 56 ∷ 48 ∷ 58 ∷ 58 ∷ 49 ∷ 55 ∷ 55 ∷ 56 ∷ 58 ∷ 102 ∷ 100 ∷ 99 ∷ 49 ∷ 58 ∷ 49 ∷ 54
    ∷ 102 ∷ 57 ∷ 58 ∷ 98 ∷ 55 ∷ 51 ∷ 57 ∷ []

abbrev pub public_ip : List ℕ
public_ip = 49 ∷ 50 ∷ 48 ∷ 46 ∷ 50 ∷ 52 ∷ 46 ∷ 56 ∷ 57 ∷ 46 ∷ 49 ∷ 53 ∷ 54 ∷ []

abbrev pub any_ip : List ℕ
any_ip = 48 ∷ 46 ∷ 48 ∷ 46 ∷ 48 ∷ 46 ∷ 48 ∷ []

abbrev pub loopback_ip : List ℕ
loopback_ip = 49 ∷ 50 ∷ 55 ∷ 46 ∷ 48 ∷ 46 ∷ 48 ∷ 46 ∷ 49 ∷ []

abbrev pub loopback_ip6 : List ℕ
loopback_ip6 = 58 ∷ 58 ∷ 49 ∷ []

module _ (inet_pton : ℕ → List ℕ → Option (List ℕ)) (inet_ntop : ℕ → List ℕ → List ℕ) where
  unfoldable pub addr : SockAddress
  unfolding from_port
  addr = from_port 0 false false

  unfoldable pub addr1 : SockAddress
  unfolding from_port
  addr1 = from_port 10000 true false

  unfoldable pub addr2 : SockAddress
  unfolding from_port
  addr2 = from_port 9999 true true

  unfoldable pub addr3 : SockAddress
  unfolding from_ip
  addr3 = from_ip inet_pton inet_ntop link_local 8888 true

  unfoldable pub addr4 : SockAddress
  unfolding from_ip
  addr4 = from_ip inet_pton inet_ntop public_ip 7777 false

  unfoldable pub families : Bool
  unfolding addr addr1 addr2 addr3 addr4
  families =
      addr.family == af_inet
      && addr1.family == af_inet
      && addr2.family == af_inet6
      && addr3.family == af_inet6
      && addr4.family == af_inet

  unfoldable pub texts : Bool
  unfolding addr addr1 addr2 addr3 addr4 ip streq
  texts =
      streq (ip inet_pton inet_ntop addr) any_ip
      && streq (ip inet_pton inet_ntop addr1) loopback_ip
      && streq (ip inet_pton inet_ntop addr2) loopback_ip6
      && streq (ip inet_pton inet_ntop addr3) link_local
      && streq (ip inet_pton inet_ntop addr4) public_ip

  unfoldable pub ports : Bool
  unfolding addr addr1 addr2 addr3 addr4 get_port
  ports =
      get_port addr == 0
      && get_port addr1 == 10000
      && get_port addr2 == 9999
      && get_port addr3 == 8888
      && get_port addr4 == 7777
