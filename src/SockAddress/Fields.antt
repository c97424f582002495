-- ===== src/SockAddress/Fields.antt =====
-- What the constructors put into an address, and what is read back.
use bounce.Prelude.{
  ℕ, zero, suc, ◌≤◌, ◌<◌, ◌≡◌, ◌≢◌, refl, sym, ap, ◌∙◌, Bool, true, false, Option, none, some, List,
  [], ◌∷◌, ◌++◌, drop, overwrite, replicate, length, if◌then◌else◌, arith, ◌-◌, Option-cases, inl,
  inr, drop-append_le,
}
use bounce.SockAddress.{
  SockAddress, af_unspec, af_inet, af_inet6, swap_bytes, blank, from_port, store_sin_addr, from_ip,
  ip, get_port,
}

swap_twice : (n : ℕ) → n < 65536 → swap_bytes (swap_bytes n) ≡ n
swap_twice n h = omega arith

from_port-port :
    (port : ℕ) (loopback ipv6 : Bool) → (from_port port loopback ipv6).port ≡ swap_bytes port
unfolding from_port blank
from_port-port port loopback true = refl
from_port-port port loopback false = refl

from_port-family :
    (port : ℕ) (loopback ipv6 : Bool) → (from_port port loopback ipv6).family ≢ af_unspec
unfolding from_port blank
from_port-family port loopback true = omega arith
from_port-family port loopback false = omega arith

module _ (pton : ℕ → List ℕ → Option (List ℕ)) (ntop : ℕ → List ℕ → List ℕ) where
  from_ip-none :
      (first : ℕ) (text : List ℕ) (port : ℕ) (ipv6 : Bool)
      → pton (if ipv6 then af_inet6 else af_inet) (first ∷ text) ≡ none
      → from_ip pton ntop (first ∷ text) port ipv6
        ≡ record (blank port) { family = if ipv6 then af_inet6 else af_inet }
  unfolding from_ip
  from_ip-none first text port ipv6 e = rw (e, from_ip) refl

  from_ip-some :
      (first : ℕ) (text : List ℕ) (port : ℕ) (ipv6 : Bool) {bytes : List ℕ}
      → pton (if ipv6 then af_inet6 else af_inet) (first ∷ text) ≡ some bytes
      → from_ip pton ntop (first ∷ text) port ipv6
        ≡ store_sin_addr bytes (record (blank port) { family = if ipv6 then af_inet6 else af_inet })
  unfolding from_ip
  from_ip-some first text port ipv6 e = rw (e, from_ip) refl

  from_ip-port :
      (text : List ℕ) (port : ℕ) (ipv6 : Bool)
      → (from_ip pton ntop text port ipv6).port ≡ swap_bytes port
  unfolding from_ip blank store_sin_addr
  from_ip-port [] port ipv6 = refl
  from_ip-port (first ∷ text) port ipv6 =
      elim (Option-cases (pton (if ipv6 then af_inet6 else af_inet) (first ∷ text))) [
        | inl e ↦ ap (λ (a : SockAddress). a.port) (from_ip-none first text port ipv6 e)
        | inr (bytes, e) ↦ ap (λ (a : SockAddress). a.port) (from_ip-some first text port ipv6 e)
      ]

minus_zero : (n : ℕ) → n ≡ n - 0
minus_zero n = omega arith

minus_suc : (n k : ℕ) → n - k ≡ suc n - suc k
minus_suc n k = omega arith

-- Bytes that are stored at the front of zeros.
overwrite-zeros :
    (n : ℕ) (bytes : List ℕ)
    → length bytes ≤ n
    → overwrite (replicate n 0) 0 bytes ≡ bytes ++ replicate (n - length bytes) 0
overwrite-zeros zero [] h = refl
overwrite-zeros zero (b ∷ bytes) h = absurd (omega arith)
overwrite-zeros (suc n) [] h = ap (λ (k : ℕ). replicate k 0) (minus_zero (suc n))
overwrite-zeros (suc n) (b ∷ bytes) h =
    ap (λ l. b ∷ l) (overwrite-zeros n bytes (omega arith))
    ∙ ap (λ (k : ℕ). b ∷ (bytes ++ replicate k 0)) (minus_suc n (length bytes))

-- With both constructors, and for both families, the port of the address is the port that was given.
pub get_port-from :
    (pton : ℕ → List ℕ → Option (List ℕ)) (ntop : ℕ → List ℕ → List ℕ) (text : List ℕ) (port : ℕ)
    (loopback ipv6 : Bool)
    → port < 65536
    → (get_port (from_port port loopback ipv6) ≡ port)
      × (get_port (from_ip pton ntop text port ipv6) ≡ port)
unfolding get_port
get_port-from pton ntop text port loopback ipv6 h = (
  ap swap_bytes (from_port-port port loopback ipv6) ∙ swap_twice port h,
  ap swap_bytes (from_ip-port pton ntop text port ipv6) ∙ swap_twice port h,
)

-- An IPv4 address is read back as the text that it was made from, where `inet_pton` reads the text as
-- four bytes that `inet_ntop` prints as this text.
pub ip-from_ip :
    (pton : ℕ → List ℕ → Option (List ℕ)) (ntop : ℕ → List ℕ → List ℕ) (first : ℕ) (text : List ℕ)
    (port a b c d : ℕ)
    → pton af_inet (first ∷ text) ≡ some (a ∷ b ∷ c ∷ d ∷ [])
    → ntop af_inet (a ∷ b ∷ c ∷ d ∷ []) ≡ first ∷ text
    → ip pton ntop (from_ip pton ntop (first ∷ text) port false) ≡ first ∷ text
unfolding ip blank store_sin_addr
ip-from_ip pton ntop first text port a b c d reads prints =
    ap (ip pton ntop) (from_ip-some pton ntop first text port false reads) ∙ prints

-- An address from an empty text has no family, whatever was asked for, and so it is not the address of
-- the same port with any host.
pub from_ip-empty :
    (pton : ℕ → List ℕ → Option (List ℕ)) (ntop : ℕ → List ℕ → List ℕ) (port : ℕ) (ipv6 : Bool)
    → ((from_ip pton ntop [] port ipv6).family ≡ af_unspec)
      × (from_ip pton ntop [] port ipv6 ≢ from_port port false ipv6)
unfolding from_ip blank
from_ip-empty pton ntop port ipv6 =
    (refl, λ same. from_port-family port false ipv6 (sym (ap (λ (a : SockAddress). a.family) same)))

-- An IPv6 address that `inet_pton` reads as sixteen bytes is stored four bytes too far to the front:
-- the address that the kernel sees lacks the first four, and ends in zeros.
pub from_ip-shifted :
    (pton : ℕ → List ℕ → Option (List ℕ)) (ntop : ℕ → List ℕ → List ℕ) (first : ℕ) (text : List ℕ)
    (port : ℕ) (bytes : List ℕ)
    → length bytes ≡ 16
    → pton af_inet6 (first ∷ text) ≡ some bytes
    → (from_ip pton ntop (first ∷ text) port true).sin6_addr ≡ drop 4 bytes ++ replicate 4 0
unfolding blank store_sin_addr
from_ip-shifted pton ntop first text port bytes size reads =
    ap (λ (a : SockAddress). a.sin6_addr) (from_ip-some pton ntop first text port true reads)
    ∙ ap (drop 4) (overwrite-zeros 20 bytes (omega (arith, size)))
    ∙ drop-append_le 4 bytes (replicate (20 - length bytes) 0) (omega (arith, size))
    ∙ ap (λ n. drop 4 bytes ++ replicate (20 - n) 0) size
