-- ===== src/Requests/Forged.antt =====
-- `resolve_client_ip`: what a client writes into the forwarding headers does not count.
use py_app_runner.Prelude.{
  String, ◌≡◌, refl, sym, ap, ◌∙◌, ◌⊎◌, inl, inr, Bool, true, not, Option, none, some, List, [],
  ◌∷◌, ◌++◌, append-nil, append_assoc, Bool-cases, any,
}
use py_app_runner.Requests.ClientIp.{
  IpAddress, reversed, parse, is_trusted, on_hop, walk, behind_proxy, from_peer, resolve_client_ip,
}

reversed-append : {A : Type 0} (xs ys : List A) → reversed (xs ++ ys) ≡ reversed ys ++ reversed xs
unfolding reversed
reversed-append [] ys = sym (append-nil (reversed ys))
reversed-append (x ∷ xs) ys =
    ap (λ zs. zs ++ x ∷ []) (reversed-append xs ys)
    ∙ append_assoc (reversed ys) (reversed xs) (x ∷ [])

module _ {Address Network : Type 0} (ip : IpAddress Address Network) (trusted : List Network) where
  -- A hop at which the walk ends: no address, or not one of the trusted proxies.
  unfoldable pub ends_at : Option Address → Bool
  ends_at none = true
  ends_at (some address) = not (is_trusted ip trusted address)

  abbrev pub ends_walk : String → Bool
  ends_walk hop = ends_at (parse ip trusted (some hop))

  on_hop-append :
      (o : Option Address) (next next' : Option Address → Option String)
      → ((last : Option Address) → (ends_at o ≡ true) ⊎ (next last ≡ next' last))
      → on_hop ip trusted o next ≡ on_hop ip trusted o next'
  unfolding on_hop ends_at
  on_hop-append none next next' k = refl
  on_hop-append (some address) next next' k = elim (Bool-cases (is_trusted ip trusted address)) [
    | inr q ↦ rw q refl
    | inl q ↦ rw q (elim (k (some address)) [ inl e ↦ absurd (cc (rw q at e)) | inr e ↦ e ])
  ]

  walk-append :
      (hops forged : List String) (last : Option Address)
      → any ends_walk hops ≡ true
      → walk ip trusted (hops ++ forged) last ≡ walk ip trusted hops last
  unfolding walk
  walk-append [] forged last h = absurd (cc h)
  walk-append (hop ∷ hops) forged last h = on_hop-append (parse ip trusted (some hop)) _ _ (λ last'.
      elim (Bool-cases (ends_walk hop)) [
        | inl e ↦ inl e
        | inr e ↦ inr (walk-append hops forged last' (rw e at h))
      ])

  behind_proxy-walk :
      (peer : Address) (forged : List String) (hop : String) (hops : List String)
      (real_ip : Option String)
      → behind_proxy ip trusted peer (forged ++ hop ∷ hops) real_ip
        ≡ walk ip trusted (reversed (forged ++ hop ∷ hops)) none
  unfolding behind_proxy
  behind_proxy-walk peer [] hop hops real_ip = refl
  behind_proxy-walk peer (f ∷ forged) hop hops real_ip = refl

  behind_proxy-forged :
      (peer : Address) (forged forged' ours : List String) (real_ip real_ip' : Option String)
      → any ends_walk (reversed ours) ≡ true
      → behind_proxy ip trusted peer (forged ++ ours) real_ip
        ≡ behind_proxy ip trusted peer (forged' ++ ours) real_ip'
  unfolding reversed
  behind_proxy-forged peer forged forged' [] real_ip real_ip' h = absurd (cc h)
  behind_proxy-forged peer forged forged' (hop ∷ hops) real_ip real_ip' h =
      walked forged real_ip ∙ sym (walked forged' real_ip')
    where
      walked :
          (ws : List String) (real : Option String)
          → behind_proxy ip trusted peer (ws ++ hop ∷ hops) real
            ≡ walk ip trusted (reversed (hop ∷ hops)) none
      walked ws real =
          behind_proxy-walk peer ws hop hops real
          ∙ ap (λ hs. walk ip trusted hs none) (reversed-append ws (hop ∷ hops))
          ∙ walk-append (reversed (hop ∷ hops)) (reversed ws) none h

  from_peer-forged :
      (o : Option Address) (forged forged' ours : List String) (real_ip real_ip' : Option String)
      → (ends_at o ≡ true) ⊎ (any ends_walk (reversed ours) ≡ true)
      → from_peer ip trusted o (forged ++ ours) real_ip
        ≡ from_peer ip trusted o (forged' ++ ours) real_ip'
  unfolding from_peer ends_at
  from_peer-forged none forged forged' ours real_ip real_ip' h = refl
  from_peer-forged (some peer) forged forged' ours real_ip real_ip' h =
      elim (Bool-cases (is_trusted ip trusted peer)) [
        | inr q ↦ rw q refl
        | inl q ↦ rw q (elim h [
          | inl e ↦ absurd (cc (rw q at e))
          | inr e ↦ behind_proxy-forged peer forged forged' ours real_ip real_ip' e
        ])
      ]

  -- Where the peer is no trusted proxy or no address, or the last hops, which our own proxies wrote,
  -- hold one that is no trusted proxy or no address: whatever stands left of those hops in
  -- X-Forwarded-For, and whatever X-Real-IP says, changes nothing about the answer. With an untrusted
  -- peer there need be no such hops, so that nothing of either header counts.
  pub resolve_client_ip-forged :
      (peer : Option String) (forged forged' ours : List String) (real_ip real_ip' : Option String)
      → (ends_at (parse ip trusted peer) ≡ true) ⊎ (any ends_walk (reversed ours) ≡ true)
      → resolve_client_ip ip trusted peer (forged ++ ours) real_ip
        ≡ resolve_client_ip ip trusted peer (forged' ++ ours) real_ip'
  unfolding resolve_client_ip
  resolve_client_ip-forged peer forged forged' ours real_ip real_ip' h =
      from_peer-forged (parse ip trusted peer) forged forged' ours real_ip real_ip' h
