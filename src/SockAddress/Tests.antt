-- ===== src/SockAddress/Tests.antt =====
-- Runs of the constructors, and the theorems at concrete addresses.
use bounce.Prelude.{
  ℕ, ◌≡◌, refl, true, false, length, ◌==◌, if◌then◌else◌, Option, none, some, List, [], ◌∷◌, ◌++◌,
  drop, replicate,
}
use bounce.SockAddress.{af_inet, from_port, from_ip, ip}
use bounce.SockAddress.Fields.{ip-from_ip, from_ip-shifted}

-- A text is its bytes, of which there are four for IPv4 and sixteen for IPv6.
abbrev pton : ℕ → List ℕ → Option (List ℕ)
pton family text = if length text == (if family == af_inet then 4 else 16) then some text else none

abbrev ntop : ℕ → List ℕ → List ℕ
ntop family bytes = bytes

abbrev six : List ℕ
six = 32 ∷ 1 ∷ 13 ∷ 184 ∷ 0 ∷ 0 ∷ 0 ∷ 0 ∷ 0 ∷ 0 ∷ 0 ∷ 0 ∷ 0 ∷ 0 ∷ 0 ∷ 1 ∷ []

loopback_text : ip pton ntop (from_port 80 true false) ≡ 127 ∷ 0 ∷ 0 ∷ 1 ∷ []
unfolding ip from_port
loopback_text = refl

ip-from_ip_example :
    ip pton ntop (from_ip pton ntop (10 ∷ 0 ∷ 0 ∷ 7 ∷ []) 80 false) ≡ 10 ∷ 0 ∷ 0 ∷ 7 ∷ []
ip-from_ip_example = ip-from_ip pton ntop 10 (0 ∷ 0 ∷ 7 ∷ []) 80 10 0 0 7 refl refl

from_ip-shifted_example : (from_ip pton ntop six 80 true).sin6_addr ≡ drop 4 six ++ replicate 4 0
from_ip-shifted_example =
    from_ip-shifted pton ntop 32 (1 ∷ 13 ∷ 184 ∷ 0 ∷ 0 ∷ 0 ∷ 0 ∷ 0 ∷ 0 ∷ 0 ∷ 0 ∷ 0 ∷ 0 ∷ 0 ∷ 1 ∷ [])
      80 six refl refl
