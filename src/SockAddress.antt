-- ===== src/SockAddress.antt =====
-- bounce/sockaddr.h and bounce/sockaddr.cc: addresses. The union of `sockaddr_in` and `sockaddr_in6` is
-- their shared fields: `sin_addr` holds the four bytes that are also `sin6_flowinfo`, and `sin6_addr`
-- the sixteen bytes behind them. The target has the low byte first.
pub mod Fields
pub mod Calls
mod Tests
use bounce.Prelude.{
  ℕ, zero, suc, ◌+◌, ◌*◌, ◌/◌, ◌%◌, Bool, true, false, Option, none, some, List, [], ◌∷◌, ◌++◌,
  take, drop, overwrite, replicate, ◌==◌, if◌then◌else◌,
}

-- `port` is in the order of the network.
pub record SockAddress : Type 0 where
  pub family : ℕ
  pub port : ℕ
  pub sin_addr : List ℕ
  pub sin6_addr : List ℕ
  pub scope_id : ℕ

abbrev pub af_unspec : ℕ
af_unspec = 0

abbrev pub af_inet : ℕ
af_inet = 2

abbrev pub af_inet6 : ℕ
af_inet6 = 10

-- `htons`, and `ntohs`: the two bytes change places.
abbrev pub swap_bytes : ℕ → ℕ
swap_bytes n = n % 256 * 256 + n / 256 % 256

-- `bzero`, and the port.
unfoldable pub blank : ℕ → SockAddress
blank port = record {
  family = af_unspec;
  port = swap_bytes port;
  sin_addr = replicate 4 0;
  sin6_addr = replicate 16 0;
  scope_id = 0;
}

-- The constructor for a port, with the loopback address or any.
unfoldable pub from_port : ℕ → Bool → Bool → SockAddress
unfolding blank
from_port port loopback ipv6 =
    if ipv6
    then record (blank port) {
      family = af_inet6;
      sin6_addr = if loopback then replicate 15 0 ++ 1 ∷ [] else replicate 16 0;
    }
    else record (blank port) {
      family = af_inet;
      sin_addr = if loopback then 127 ∷ 0 ∷ 0 ∷ 1 ∷ [] else replicate 4 0;
    }

-- The constructor with its default arguments.
abbrev pub default_address : SockAddress
default_address = from_port 0 false false

-- The bytes that a call stores at `&addr_.sin_addr`; they may run on into `sin6_addr`.
unfoldable pub store_sin_addr : List ℕ → SockAddress → SockAddress
store_sin_addr bytes a =
    let all = overwrite (a.sin_addr ++ a.sin6_addr) 0 bytes in
    record a { sin_addr = take 4 all; sin6_addr = drop 4 all }

-- `inet_pton` stores bytes for a family and a text, or nothing; `inet_ntop` prints bytes.
module _ (inet_pton : ℕ → List ℕ → Option (List ℕ)) (inet_ntop : ℕ → List ℕ → List ℕ) where
  -- The constructor for a text and a port.
  unfoldable pub from_ip : List ℕ → ℕ → Bool → SockAddress
  unfolding blank store_sin_addr
  from_ip [] port ipv6 = record (blank port) { family = af_unspec }
  from_ip (c ∷ ip) port ipv6 =
      let family = if ipv6 then af_inet6 else af_inet in
      let a = record (blank port) { family = family } in
      elim (inet_pton family (c ∷ ip)) [ none ↦ a | some bytes ↦ store_sin_addr bytes a ]

  unfoldable pub ip : SockAddress → List ℕ
  ip a =
      if a.family == af_inet
      then inet_ntop af_inet a.sin_addr
      else (if a.family == af_inet6 then inet_ntop af_inet6 a.sin6_addr else [])

-- The method `port`.
unfoldable pub get_port : SockAddress → ℕ
get_port a = swap_bytes a.port

unfoldable pub set_scope_id : ℕ → SockAddress → SockAddress
set_scope_id scope_id a = if a.family == af_inet6 then record a { scope_id = scope_id } else a
