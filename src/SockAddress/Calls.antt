-- ===== src/SockAddress/Calls.antt =====
-- The life of an address: one of its constructors, and changes of the scope.
use bounce.Prelude.{
  ℕ, ◌<◌, ◌+◌, ◌*◌, ◌%◌, ◌/◌, ◌≡◌, refl, ap, ◌∙◌, Bool, true, false, Option, List, [], ◌∷◌, ◌==◌,
  if◌then◌else◌, arith,
}
use bounce.SockAddress.{
  SockAddress, af_inet6, from_port, from_ip, default_address, ip, get_port, set_scope_id,
}
use bounce.SockAddress.Fields.{get_port-from}

-- The arguments of the constructors, each of which may have its default.
pub data Made : Type 0 where
  by_default : Made
  by_port : ℕ → Bool → Bool → Made
  by_ip : List ℕ → ℕ → Bool → Made

abbrev pub port_of : Made → ℕ
port_of by_default = 0
port_of (by_port port loopback ipv6) = port
port_of (by_ip text port ipv6) = port

unfoldable pub set_scope_ids : List ℕ → SockAddress → SockAddress
unfolding set_scope_id
set_scope_ids [] a = a
set_scope_ids (scope_id ∷ scope_ids) a = set_scope_ids scope_ids (set_scope_id scope_id a)

pub last_of : List ℕ → ℕ → ℕ
last_of [] n = n
last_of (m ∷ l) n = last_of l m

-- What a change of the scope leaves, and the scope after it.
pub record Scoped (scope_ids : List ℕ) (a a' : SockAddress) : Type 0 where
  pub family : a'.family ≡ a.family
  pub port : a'.port ≡ a.port
  pub bytes : (a'.sin_addr ≡ a.sin_addr) × (a'.sin6_addr ≡ a.sin6_addr)
  pub scope_id :
      a'.scope_id ≡ (if a.family == af_inet6 then last_of scope_ids a.scope_id else a.scope_id)

one-Scoped : (scope_id : ℕ) (a : SockAddress) → Scoped (scope_id ∷ []) a (set_scope_id scope_id a)
unfolding set_scope_id last_of
one-Scoped scope_id a = record {
  family = ground arith;
  port = ground arith;
  bytes = ground arith;
  scope_id = ground arith;
}

then_scope :
    (six : Bool) (l : List ℕ) (m n : ℕ)
    → (if six then last_of l (if six then m else n) else (if six then m else n))
      ≡ (if six then last_of (m ∷ l) n else n)
unfolding last_of
then_scope true l m n = refl
then_scope false l m n = refl

set_scope_ids-Scoped :
    (scope_ids : List ℕ) (a : SockAddress) → Scoped scope_ids a (set_scope_ids scope_ids a)
unfolding set_scope_ids last_of
set_scope_ids-Scoped [] a = record {
  family = refl;
  port = refl;
  bytes = (refl, refl);
  scope_id = ground arith;
}
set_scope_ids-Scoped (m ∷ l) a =
    let first = one-Scoped m a in
    let rest = set_scope_ids-Scoped l (set_scope_id m a) in
    record {
      family = rest.family ∙ first.family;
      port = rest.port ∙ first.port;
      bytes = (rest.bytes.0 ∙ first.bytes.0, rest.bytes.1 ∙ first.bytes.1);
      scope_id =
          rest.scope_id
          ∙ rw (first.family, first.scope_id) (then_scope (a.family == af_inet6) l m a.scope_id);
    }

module _ (inet_pton : ℕ → List ℕ → Option (List ℕ)) (inet_ntop : ℕ → List ℕ → List ℕ) where
  unfoldable pub construct : Made → SockAddress
  unfolding from_port from_ip
  construct by_default = default_address
  construct (by_port port loopback ipv6) = from_port port loopback ipv6
  construct (by_ip text port ipv6) = from_ip inet_pton inet_ntop text port ipv6

  unfoldable pub life : Made → List ℕ → SockAddress
  unfolding construct set_scope_ids
  life made scope_ids = set_scope_ids scope_ids (construct made)

  construct-port : (made : Made) → port_of made < 65536 → get_port (construct made) ≡ port_of made
  unfolding construct
  construct-port by_default h = (get_port-from inet_pton inet_ntop [] 0 false false h).0
  construct-port (by_port port loopback ipv6) h =
      (get_port-from inet_pton inet_ntop [] port loopback ipv6 h).0
  construct-port (by_ip text port ipv6) h =
      (get_port-from inet_pton inet_ntop text port false ipv6 h).1

  -- Whatever constructor made an address, and however often its scope is set, port gives back the port
  -- that it was made with, if that is below 65536, or zero by default; its family and what ip prints
  -- stay those from the constructor; and the scope is the last that was set for an IPv6 address, and
  -- untouched for any other.
  pub life_lem :
      (made : Made) (scope_ids : List ℕ)
      → port_of made < 65536
      → (get_port (life made scope_ids) ≡ port_of made)
        × ((life made scope_ids).family ≡ (construct made).family)
        × (ip inet_pton inet_ntop (life made scope_ids) ≡ ip inet_pton inet_ntop (construct made))
        × ((life made scope_ids).scope_id ≡ (
            if (construct made).family == af_inet6
            then last_of scope_ids (construct made).scope_id
            else (construct made).scope_id))
  unfolding life get_port ip
  life_lem made scope_ids h =
      let s = set_scope_ids-Scoped scope_ids (construct made) in
      (
        ap (λ n. n % 256 * 256 + n / 256 % 256) s.port ∙ construct-port made h,
        s.family,
        rw (s.family, s.bytes.0, s.bytes.1) refl,
        s.scope_id,
      )
