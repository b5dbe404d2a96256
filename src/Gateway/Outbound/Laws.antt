-- ===== src/Gateway/Outbound/Laws.antt =====
-- What ReverseProxy leaves of a request's header, what it drops, and what it adds.
use kratos_micro_layout.Prelude.{
  sym, ◌∙◌, All, append_assoc, ◌≡◌, ◌≢◌, refl, arith, Bool, true, false, Option, none, some, List,
  [], ◌∷◌, ◌++◌, Text, is_empty, codes,
}
use kratos_micro_layout.Text.{join}
use kratos_micro_layout.Text.Laws.{text_eq_iff}
use kratos_micro_layout.Http.{Header, Request, get}
use kratos_micro_layout.Http.Laws.{get-set_ne, get-set_self}
use kratos_micro_layout.Gateway.Outbound.{
  same_name, any_name, values, connection, upgrade, te, forwarded_for, user_agent, dropped,
  hop_by_hop, without, set_if, relayed, outbound, addressed,
}

any_name-append :
    (name : Text) (ms ns : List Text) → any_name name ms ≡ true → any_name name (ms ++ ns) ≡ true
unfolding any_name
any_name-append name [] ns h = absurd (ground (arith, h))
any_name-append name (m ∷ ms) ns h = ground (arith, any_name-append name ms ns)

get-without_ne :
    (name : Text) (names : List Text) (h : Header)
    → any_name name names ≡ false
    → get name (without names h) ≡ get name h
unfolding get without
get-without_ne name names [] kept = refl
get-without_ne name names ((n, v) ∷ h) kept =
    ground (arith, text_eq_iff n name, get-without_ne name names h kept)

get-without_named :
    (name : Text) (names : List Text) (h : Header)
    → any_name name names ≡ true
    → get name (without names h) ≡ []
unfolding get without
get-without_named name names [] named = refl
get-without_named name names ((n, v) ∷ h) named =
    ground (arith, text_eq_iff n name, get-without_named name names h named)

get-set_if_ne :
    (test : Bool) (name other value : Text) (h : Header)
    → other ≢ name
    → get other (set_if test name value h) ≡ get other h
unfolding set_if
get-set_if_ne true name other value h ne = get-set_ne name other value h ne
get-set_if_ne false name other value h ne = refl

get-values_empty : (name : Text) (h : Header) → is_empty (values name h) ≡ true → get name h ≡ []
unfolding get values
get-values_empty name [] e = refl
get-values_empty name ((n, v) ∷ h) e = ground (arith, get-values_empty name h)

-- An absent field that is set to the empty text reads as before.
get-set_absent :
    (name other : Text) (h : Header)
    → get other (set_if (is_empty (values name h)) name [] h) ≡ get other h
unfolding set_if
get-set_absent name other h = ground (
  arith,
  get-values_empty name h,
  get-set_self name [] h,
  get-set_ne name other [] h,
  text_eq_iff name other,
)

join-last :
    (parts : List Text) (last sep : Text)
    → (before : Text) × (join (parts ++ last ∷ []) sep ≡ before ++ last)
unfolding join
join-last [] last sep = ([], refl)
join-last (p ∷ []) last sep = (p ++ sep, sym (append_assoc p sep last))
join-last (p ∷ q ∷ parts) last sep =
    let (before, e) = join-last (q ∷ parts) last sep in
    (p ++ (sep ++ before), rw e (rw append_assoc (rw append_assoc refl)))

get-relayed :
    (name : Text) (h : Header)
    → name ≢ upgrade
    → name ≢ connection
    → name ≢ te
    → get name (relayed h) ≡ get name (without (hop_by_hop h) h)
unfolding relayed
get-relayed name h a b c =
    get-set_if_ne _ upgrade name _ _ a
    ∙ (get-set_if_ne _ connection name _ _ b ∙ get-set_if_ne _ te name _ _ c)

get-addressed_ne :
    (name : Text) (ip : Option Text) (h : Header)
    → name ≢ forwarded_for
    → get name (addressed ip h) ≡ get name h
unfolding addressed
get-addressed_ne name none h a = refl
get-addressed_ne name (some ip) h a = get-set_ne forwarded_for name _ h a

-- Apart from the fields that are set anew, a field is sent as the removal leaves it.
get-outbound_ne :
    (name : Text) (req : Request)
    → name ≢ upgrade
    → name ≢ connection
    → name ≢ te
    → name ≢ forwarded_for
    → get name (outbound req).header ≡ get name (without (hop_by_hop req.header) req.header)
unfolding outbound
get-outbound_ne name req a b c d =
    get-set_absent user_agent name _
    ∙ (get-addressed_ne name req.remote_ip _ d ∙ get-relayed name req.header a b c)

named_ne :
    (name other : Text) (names : List Text)
    → any_name name names ≡ false
    → any_name other names ≡ true
    → name ≢ other
named_ne name other names a b e = ground (arith, a, b, e)

hop_by_hop-upgrade : (h : Header) → any_name upgrade (hop_by_hop h) ≡ true
unfolding hop_by_hop any_name same_name
hop_by_hop-upgrade h = refl

hop_by_hop-connection : (h : Header) → any_name connection (hop_by_hop h) ≡ true
unfolding hop_by_hop any_name same_name
hop_by_hop-connection h = refl

hop_by_hop-te : (h : Header) → any_name te (hop_by_hop h) ≡ true
unfolding hop_by_hop any_name same_name
hop_by_hop-te h = refl

pub get-outbound_kept :
    (name : Text) (req : Request)
    → any_name name (hop_by_hop req.header) ≡ false
    → name ≢ forwarded_for
    → get name (outbound req).header ≡ get name req.header
get-outbound_kept name req kept other =
    get-outbound_ne name req (named_ne name upgrade _ kept (hop_by_hop-upgrade req.header))
      (named_ne name connection _ kept (hop_by_hop-connection req.header))
      (named_ne name te _ kept (hop_by_hop-te req.header)) other
    ∙ get-without_ne name (hop_by_hop req.header) req.header kept

abbrev anew : List Text
anew = upgrade ∷ connection ∷ te ∷ forwarded_for ∷ []

get-outbound_empty :
    (name : Text) (req : Request)
    → any_name name (connection ∷ te ∷ upgrade ∷ dropped) ≡ true
    → any_name name anew ≡ false
    → get name (outbound req).header ≡ []
unfolding hop_by_hop any_name same_name
get-outbound_empty name req named old =
    get-outbound_ne name req (named_ne name upgrade anew old refl)
      (named_ne name connection anew old refl) (named_ne name te anew old refl)
      (named_ne name forwarded_for anew old refl)
    ∙ get-without_named name (hop_by_hop req.header) req.header
        (any_name-append name (connection ∷ te ∷ upgrade ∷ dropped) _ named)

pub outbound-dropped : (req : Request) → All (λ name. get name (outbound req).header ≡ []) dropped
unfolding any_name same_name
outbound-dropped req = (
  get-outbound_empty (codes "Proxy-Connection") req refl refl,
  (
    get-outbound_empty (codes "Keep-Alive") req refl refl,
    (
      get-outbound_empty (codes "Proxy-Authenticate") req refl refl,
      (
        get-outbound_empty (codes "Proxy-Authorization") req refl refl,
        (
          get-outbound_empty (codes "Trailer") req refl refl,
          (get-outbound_empty (codes "Transfer-Encoding") req refl refl, tt),
        ),
      ),
    ),
  ),
)

pub outbound-forwarded_for :
    (req : Request) (ip : Text)
    → req.remote_ip ≡ some ip
    → (before : Text) × (get forwarded_for (outbound req).header ≡ before ++ ip)
unfolding outbound addressed
outbound-forwarded_for req ip known =
    let (before, e) = join-last (values forwarded_for (relayed req.header)) ip (codes ", ") in
    (
      before,
      get-set_absent user_agent forwarded_for (addressed req.remote_ip (relayed req.header))
          ∙ rw known (get-set_self forwarded_for _ _ ∙ e),
    )
