-- ===== src/Config/Routes.antt =====
-- The routes of the configuration: parse_rt_tokens of rt.c. A route that is refused is not counted,
-- and the program ends, so what it wrote is not kept.
pub mod Grown
use ipsec_secgw_old.Prelude.{
  ℕ, zero, suc, ◌+◌, ◌%◌, ◌≤◌, ◌<◌, ◌≡◌, ◌⊎◌, inl, inr, refl, sym, subst, Bool, true, false, not,
  ◌==◌, leb, if◌then◌else◌, Bool-cases, Option-cases, List, [], ◌∷◌, ◌++◌, Option, none, some,
  length, length-append, arith,
}
use ipsec_secgw_old.Config.Token.{
  Token, is_word, is_str_num, atoi, parse_ipv4_addr, parse_ipv6_addr,
}

-- The address is a number for IPv4, and octets for IPv6.
pub record Route {ℓ} (A : Type ℓ) : Type ℓ where
  pub ip : A
  pub depth : ℕ
  pub if_out : ℕ

pub data RouteItem : Type 0 where
  dst_addr out_port : RouteItem

-- The item that a token starts. Other tokens are passed over.
unfoldable pub route_item : Token → Option RouteItem
route_item t =
    if is_word t "dst" then some dst_addr else if is_word t "port" then some out_port else none

-- A token that is read for "dst" is tested against "port" too.
unfoldable pub after_dst : Token → Option RouteItem
after_dst t = if is_word t "port" then some out_port else none

-- RT_IPV4_MAX_RULES; RT_IPV6_MAX_RULES is the same.
abbrev pub rt_max_rules : ℕ
rt_max_rules = 1024

module _ {ℓ} {A : Type ℓ} where
  -- The loop, with the item that the token before has left to read. The depth and the port are octets.
  unfoldable pub rt_items :
      (Token → Option (A × ℕ)) → List Token → Option RouteItem → Route A → Option (Route A)
  unfolding route_item after_dst
  rt_items parse_addr [] none route = some route
  rt_items parse_addr [] (some k) route = none
  rt_items parse_addr (t ∷ ts) none route = rt_items parse_addr ts (route_item t) route
  rt_items parse_addr (t ∷ ts) (some dst_addr) route = elim (parse_addr t) [
    | none ↦ none
    | some (ip, depth) ↦
        rt_items parse_addr ts (after_dst t) (record route { ip = ip; depth = depth % 256 })
  ]
  rt_items parse_addr (t ∷ ts) (some out_port) route = elim (is_str_num t) [
    | false ↦ none
    | true ↦ rt_items parse_addr ts none (record route { if_out = atoi t % 256 })
  ]

  -- The routes with one more, where there is room. The memory is cleared, and `zero_ip` is its address.
  unfoldable pub add_route :
      (Token → Option (A × ℕ)) → A → List Token → List (Route A) → Option (List (Route A))
  unfolding rt_items
  add_route parse_addr zero_ip ts routes =
      if leb (length routes + 1) rt_max_rules
      then elim (rt_items parse_addr ts none (record { ip = zero_ip; depth = 0; if_out = 0 })) [
        | none ↦ none
        | some route ↦ some (routes ++ route ∷ [])
      ]
      else none

-- rt_ip4 and rt_ip6, as far as they are counted.
pub record Routes : Type 0 where
  pub rt_ip4 : List (Route ℕ)
  pub rt_ip6 : List (Route (ℕ → ℕ))

-- `none` where the status is negative. The program does not look for the first token.
unfoldable pub parse_rt_tokens :
    (Token → Option ℕ) → (Token → Option (ℕ → ℕ)) → Routes → Token → List Token → Option Routes
unfolding add_route
parse_rt_tokens pton4 pton6 r version ts =
    if is_word version "ipv4"
    then elim (add_route (parse_ipv4_addr pton4) 0 ts r.rt_ip4) [
      | none ↦ none
      | some rs ↦ some (record r { rt_ip4 = rs })
    ]
    else if is_word version "ipv6"
    then elim (add_route (parse_ipv6_addr pton6) (λ i. 0) ts r.rt_ip6) [
      | none ↦ none
      | some rs ↦ some (record r { rt_ip6 = rs })
    ]
    else none
