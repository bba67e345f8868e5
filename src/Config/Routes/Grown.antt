-- ===== src/Config/Routes/Grown.antt =====
-- A line for a route that is accepted adds one route to one table, which stays within its bounds.
use ipsec_secgw_old.Prelude.{
  ℕ, ◌+◌, ◌%◌, ◌≤◌, ◌<◌, ◌≡◌, inl, inr, refl, sym, subst, true, false, leb, Bool-cases,
  Option-cases, List, [], ◌∷◌, ◌++◌, Option, none, some, length, length-append, arith,
}
use ipsec_secgw_old.Config.Token.{
  Token, is_word, is_str_num, atoi, parse_ipv4_addr, parse_ipv6_addr,
}
use ipsec_secgw_old.Config.Routes.{
  Route, RouteItem, dst_addr, out_port, route_item, after_dst, rt_max_rules, rt_items, add_route,
  Routes, parse_rt_tokens,
}

-- The depth and the port of a route are octets.
pub record IsOctets {ℓ} {A : Type ℓ} (route : Route A) : Type 0 where
  pub depth_small : route.depth < 256
  pub port_small : route.if_out < 256

pub data AllOctets {ℓ} {A : Type ℓ} : List (Route A) → Type ℓ where
  none_left : AllOctets []
  next_route :
      {route : Route A} {routes : List (Route A)}
      → IsOctets route
      → AllOctets routes
      → AllOctets (route ∷ routes)

pub record IsRouteList {ℓ} {A : Type ℓ} (routes : List (Route A)) : Type ℓ where
  pub bounded : length routes ≤ rt_max_rules
  pub all_octets : AllOctets routes

-- The tables of routes are as large as they may be, and hold octets.
pub record IsRoutes (r : Routes) : Type 0 where
  pub table4 : IsRouteList r.rt_ip4
  pub table6 : IsRouteList r.rt_ip6

module _ {ℓ} {A : Type ℓ} where
  rt_items-IsOctets :
      (parse_addr : Token → Option (A × ℕ)) (ts : List Token) (k : Option RouteItem)
      (start route : Route A)
      → IsOctets start
      → rt_items parse_addr ts k start ≡ some route
      → IsOctets route
  unfolding rt_items
  rt_items-IsOctets parse_addr [] none start route small e = ground arith
  rt_items-IsOctets parse_addr [] (some k) start route small e = cc e
  rt_items-IsOctets parse_addr (t ∷ ts) none start route small e =
      rt_items-IsOctets parse_addr ts (route_item t) start route small e
  rt_items-IsOctets parse_addr (t ∷ ts) (some dst_addr) start route small e =
      elim (Option-cases (parse_addr t)) [
        | inl f ↦ absurd (cc (e, f))
        | inr ((ip, depth), f) ↦
            rt_items-IsOctets parse_addr ts (after_dst t)
              (record start { ip = ip; depth = depth % 256 }) route
              (record { depth_small = omega arith; port_small = small.port_small })
              (rw (f, rt_items) at e)
      ]
  rt_items-IsOctets parse_addr (t ∷ ts) (some out_port) start route small e =
      elim (Bool-cases (is_str_num t)) [
        | inr f ↦ absurd (cc (e, f))
        | inl f ↦
            rt_items-IsOctets parse_addr ts none (record start { if_out = atoi t % 256 }) route
              (record { depth_small = small.depth_small; port_small = omega arith })
              (rw (f, rt_items) at e)
      ]

  append-AllOctets :
      (routes : List (Route A)) (route : Route A)
      → AllOctets routes
      → IsOctets route
      → AllOctets (routes ++ route ∷ [])
  append-AllOctets [] route none_left small = next_route small none_left
  append-AllOctets (r ∷ rs) route (next_route first rest) small =
      next_route first (append-AllOctets rs route rest small)

  grown-IsRouteList :
      (routes : List (Route A)) (route : Route A)
      → IsRouteList routes
      → length routes + 1 ≤ rt_max_rules
      → IsOctets route
      → IsRouteList (routes ++ route ∷ [])
  grown-IsRouteList routes route is_list room small = record {
    bounded = omega (arith, length-append routes (route ∷ []), room);
    all_octets = append-AllOctets routes route is_list.all_octets small;
  }

  -- The routes after it are those before and one more.
  pub IsGrown : List (Route A) → List (Route A) → Type ℓ
  IsGrown routes routes' =
      IsRouteList routes' × (route : Route A) × (routes' ≡ routes ++ route ∷ [])

  add_route-IsGrown :
      (parse_addr : Token → Option (A × ℕ)) (zero_ip : A) (ts : List Token)
      (routes routes' : List (Route A))
      → IsRouteList routes
      → add_route parse_addr zero_ip ts routes ≡ some routes'
      → IsGrown routes routes'
  unfolding add_route IsGrown
  add_route-IsGrown parse_addr zero_ip ts routes routes' is_list e =
      elim (Bool-cases (leb (length routes + 1) rt_max_rules)) [
        | inr f ↦ absurd (cc (e, f))
        | inl f ↦
            elim (Option-cases
              (rt_items parse_addr ts none (record { ip = zero_ip; depth = 0; if_out = 0 }))) [
                | inl g ↦ absurd (cc (rw (f, g, add_route) at e))
                | inr (route, g) ↦
                    let small : IsOctets route =
                      rt_items-IsOctets parse_addr ts none
                        (record { ip = zero_ip; depth = 0; if_out = 0 }) route
                        (record { depth_small = omega arith; port_small = omega arith }) g in
                    let same : some (routes ++ route ∷ []) ≡ some routes' =
                      rw (f, g, add_route) at e in
                    let same_list : routes ++ route ∷ [] ≡ routes' = cc same in
                    let room : length routes + 1 ≤ rt_max_rules = ground arith in
                    (
                      subst IsRouteList same_list
                          (grown-IsRouteList routes route is_list room small),
                      route,
                      sym same_list,
                    )
              ]
      ]

-- A line that is accepted adds one route to one of the tables, and leaves the other.
pub data IsParsed (r r' : Routes) : Type 0 where
  grown4 : IsGrown r.rt_ip4 r'.rt_ip4 → r'.rt_ip6 ≡ r.rt_ip6 → IsParsed r r'
  grown6 : IsGrown r.rt_ip6 r'.rt_ip6 → r'.rt_ip4 ≡ r.rt_ip4 → IsParsed r r'

parsed4 :
    (pton4 : Token → Option ℕ) (pton6 : Token → Option (ℕ → ℕ)) (r r' : Routes) (version : Token)
    (ts : List Token)
    → IsRoutes r
    → is_word version "ipv4" ≡ true
    → parse_rt_tokens pton4 pton6 r version ts ≡ some r'
    → IsParsed r r'
unfolding parse_rt_tokens
parsed4 pton4 pton6 r r' version ts is_routes is4 e =
    elim (Option-cases (add_route (parse_ipv4_addr pton4) 0 ts r.rt_ip4)) [
      | inl f ↦ absurd (cc (rw (is4, f, parse_rt_tokens) at e))
      | inr (rs, f) ↦
          let same : some (record r { rt_ip4 = rs }) ≡ some r' =
            rw (is4, f, parse_rt_tokens) at e in
          let same_routes : record r { rt_ip4 = rs } ≡ r' = cc same in
          subst (IsParsed r) same_routes (
            grown4 (add_route-IsGrown (parse_ipv4_addr pton4) 0 ts r.rt_ip4 rs is_routes.table4 f)
              refl)
    ]

parsed6 :
    (pton4 : Token → Option ℕ) (pton6 : Token → Option (ℕ → ℕ)) (r r' : Routes) (version : Token)
    (ts : List Token)
    → IsRoutes r
    → is_word version "ipv4" ≡ false
    → parse_rt_tokens pton4 pton6 r version ts ≡ some r'
    → IsParsed r r'
unfolding parse_rt_tokens
parsed6 pton4 pton6 r r' version ts is_routes not4 e = elim (Bool-cases (is_word version "ipv6")) [
  | inr not6 ↦ absurd (cc (rw (not4, not6, parse_rt_tokens) at e))
  | inl is6 ↦ elim (Option-cases (add_route (parse_ipv6_addr pton6) (λ i. 0) ts r.rt_ip6)) [
    | inl f ↦ absurd (cc (rw (not4, is6, f, parse_rt_tokens) at e))
    | inr (rs, f) ↦
        let same : some (record r { rt_ip6 = rs }) ≡ some r' =
          rw (not4, is6, f, parse_rt_tokens) at e in
        let same_routes : record r { rt_ip6 = rs } ≡ r' = cc same in
        subst (IsParsed r) same_routes (
          grown6
            (add_route-IsGrown (parse_ipv6_addr pton6) (λ i. 0) ts r.rt_ip6 rs is_routes.table6 f)
            refl)
  ]
]

-- Where the status is not negative, one table has one more route at its end, and is still of at most
-- RT_IPV4_MAX_RULES routes whose depth and port are octets, and the other table is as it was.
pub parse_rt_tokens-IsParsed :
    (pton4 : Token → Option ℕ) (pton6 : Token → Option (ℕ → ℕ)) (r r' : Routes) (version : Token)
    (ts : List Token)
    → IsRoutes r
    → parse_rt_tokens pton4 pton6 r version ts ≡ some r'
    → IsParsed r r'
parse_rt_tokens-IsParsed pton4 pton6 r r' version ts is_routes e =
    elim (Bool-cases (is_word version "ipv4")) [
      | inl is4 ↦ parsed4 pton4 pton6 r r' version ts is_routes is4 e
      | inr not4 ↦ parsed6 pton4 pton6 r r' version ts is_routes not4 e
    ]
