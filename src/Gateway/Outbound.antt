-- ===== src/Gateway/Outbound.antt =====
-- What httputil.ReverseProxy makes of the header of a request, behind its director and before its
-- transport: app/gateway/internal/proxy/handler.go relies on it. An Upgrade that has other
-- characters than printable ones of ASCII, which it answers with an error, is left out.
pub mod Laws
use mathlib.Core.List.{reverse}
use kratos_micro_layout.Prelude.{
  ℕ, ◌+◌, ◌&&◌, ◌||◌, Bool, true, false, Option, none, some, List, [], ◌∷◌, ◌++◌, map, Text,
  text_eq, codes, String, leb, ◌==◌, is_empty, if◌then◌else◌,
}
use kratos_micro_layout.Text.{split, join}
use kratos_micro_layout.Http.{Header, Request, get, set}

-- Names and tokens are compared without the case of ASCII letters.
abbrev lower_ascii : ℕ → ℕ
lower_ascii c = if leb b'A' c && leb c b'Z' then c + 32 else c

unfoldable pub same_name : Text → Text → Bool
same_name s t = text_eq (map lower_ascii s) (map lower_ascii t)

unfoldable pub any_name : Text → List Text → Bool
unfolding same_name
any_name name [] = false
any_name name (n ∷ ns) = same_name n name || any_name name ns

drop_blanks : Text → Text
drop_blanks [] = []
drop_blanks (c ∷ s) = let rest = drop_blanks s in if c == b' ' || c == 9 then rest else c ∷ s

-- The tokens of a field value, which commas separate
unfoldable pub tokens : Text → List Text
unfolding drop_blanks
tokens value = map (λ s. reverse (drop_blanks (reverse (drop_blanks s)))) (split value b',')

-- All values of a field, and all tokens of them
unfoldable pub values : Text → Header → List Text
values name [] = []
values name ((n, v) ∷ h) = let rest = values name h in if text_eq n name then v ∷ rest else rest

unfoldable pub all_tokens : List Text → List Text
unfolding tokens
all_tokens [] = []
all_tokens (v ∷ vs) = tokens v ++ all_tokens vs

abbrev pub connection : Text
connection = codes "Connection"

abbrev pub upgrade : Text
upgrade = codes "Upgrade"

abbrev pub te : Text
te = codes "Te"

abbrev pub forwarded_for : Text
forwarded_for = codes "X-Forwarded-For"

abbrev pub user_agent : Text
user_agent = codes "User-Agent"

-- The hop-by-hop fields that are not set anew.
abbrev pub dropped : List Text
dropped =
    codes "Proxy-Connection"
    ∷ codes "Keep-Alive"
    ∷ codes "Proxy-Authenticate"
    ∷ codes "Proxy-Authorization"
    ∷ codes "Trailer"
    ∷ codes "Transfer-Encoding"
    ∷ []

unfoldable pub hop_by_hop : Header → List Text
unfolding all_tokens values
hop_by_hop h = (connection ∷ te ∷ upgrade ∷ dropped) ++ all_tokens (values connection h)

-- removeHopByHopHeaders
unfoldable pub without : List Text → Header → Header
unfolding any_name
without names [] = []
without names ((n, v) ∷ h) =
    let rest = without names h in if any_name n names then rest else (n, v) ∷ rest

-- upgradeType
unfoldable pub upgrade_type : Header → Text
upgrade_type h = if any_name upgrade (all_tokens (values connection h)) then get upgrade h else []

unfoldable pub set_if : Bool → Text → Text → Header → Header
set_if test name value h = if test then set name value h else h

-- The header without the client's address
unfoldable pub relayed : Header → Header
unfolding without hop_by_hop upgrade_type set_if
relayed h =
    let kind = upgrade_type h in
    let asks = if is_empty kind then false else true in
    set_if asks upgrade kind (
      set_if asks connection upgrade (
        set_if (any_name te_trailers (all_tokens (values te h))) te te_trailers
          (without (hop_by_hop h) h)))
  where
    te_trailers : Text
    te_trailers = codes "trailers"

-- X-Forwarded-For, with the values that are there in front
unfoldable pub addressed : Option Text → Header → Header
unfolding values
addressed none h = h
addressed (some ip) h = set forwarded_for (join (values forwarded_for h ++ ip ∷ []) (codes ", ")) h

unfoldable pub outbound : Request → Request
unfolding addressed relayed
outbound req =
    let h = addressed req.remote_ip (relayed req.header) in
    record req { header = set_if (is_empty (values user_agent h)) user_agent [] h }
