-- ===== src/Mqtt/Presence/Laws.antt =====
-- What connecting and disconnecting do to the bots.
use bumper.Base.{
  String, ◌≡◌, refl, ◌≢◌, Bool, false, not, ◌&&◌, contains, some, none, some, ◌==◌, eq_iff,
  if◌then◌else◌, Option-cases, Bool-cases, inl, inr, ==_ne, ap, ◌∙◌,
}
use bumper.Settings.{Config}
use bumper.Value.{bool}
use bumper.Db.Tiny.{TinyDb, Documented}
use bumper.Db.Bots
use bumper.Db.Bots.Laws.{map_bot, get-set_mqtt, did-get}
use bumper.Mqtt.ClientId.{ClientId, ClientType, split_client_id}
use bumper.Mqtt.Auth.{helper_bot_client_id}
use bumper.Mqtt.Presence.{Presence, without, set_client_connected, on_client_disconnected}

module _ ⦃db : TinyDb⦄ ⦃laws : Documented db⦄ where
  absent_elsewhere :
      (did j : String) (t : db.Table)
      → Bots.get did t ≡ none
      → Bots.get j t ≡ (if did == j then none else Bots.get j t)
  absent_elsewhere did j t h = elim (Bool-cases (did == j)) [
    | inl e ↦ rw e (let p : did ≡ j = (eq_iff did j).0 e in rw (← p) h)
    | inr e ↦ rw e
  ]

  bots-set_client_connected :
      (client_id : String) (c : ClientId) (connected : Bool) (j : String) (s : Presence)
      → client_id ≢ helper_bot_client_id
      → split_client_id client_id ≡ some c
      → c.client_type ≡ ClientType.bot
      → Bots.get j (set_client_connected client_id connected s).bots ≡ (
          if c.did == j
          then map_bot (λ v. record v { mqtt_connection = bool connected }) (Bots.get c.did s.bots)
          else Bots.get j s.bots)
  unfolding set_client_connected
  bots-set_client_connected client_id c connected j s ne split kind =
      elim (Option-cases (Bots.get c.did s.bots)) [
        | inl absent ↦
            rw (==_ne client_id helper_bot_client_id ne, split, kind, absent)
              (absent_elsewhere c.did j s.bots absent)
        | inr (b, found) ↦
            rw (==_ne client_id helper_bot_client_id ne, split, kind, found)
              (ap (λ d. Bots.get j (Bots.set_mqtt d connected s.bots)) (did-get c.did s.bots found)
                ∙ get-set_mqtt c.did j connected s.bots
                ∙ rw found)
      ]

  -- The proxy's `disconnect` raised.
  abbrev pub proxy_fails : Config → Bool → String → Presence → Bool
  proxy_fails cfg disconnects client_id s =
      not disconnects && (cfg.proxy_mqtt && contains s.proxies client_id)

  -- After a client has disconnected whose identifier splits into that of a bot, and which is not
  -- the helper bot, the record of that bot, where there is one, says so, whatever it said before,
  -- and no other bot's record changes - unless, in proxy mode, the client has a proxy whose own
  -- disconnect raises: then the hook raises, and no bot's record changes.
  pub bots-on_client_disconnected :
      (cfg : Config) (disconnects : Bool) (client_id : String) (c : ClientId) (j : String)
      (s : Presence)
      → client_id ≢ helper_bot_client_id
      → split_client_id client_id ≡ some c
      → c.client_type ≡ ClientType.bot
      → let (r, s') = on_client_disconnected cfg disconnects client_id s in
        let fails = proxy_fails cfg disconnects client_id s in
        (r ≡ (if fails then none else some tt))
        × (Bots.get j s'.bots ≡ (
            if fails
            then Bots.get j s.bots
            else if c.did == j
            then map_bot (λ v. record v { mqtt_connection = bool false }) (Bots.get c.did s.bots)
            else Bots.get j s.bots))
  unfolding on_client_disconnected
  bots-on_client_disconnected cfg disconnects client_id c j s ne split kind =
      elim (Bool-cases (cfg.proxy_mqtt && contains s.proxies client_id)) [
        | inl e ↦ elim (Bool-cases disconnects) [
          | inl d ↦
              rw (e, d)
                (
                  refl,
                  bots-set_client_connected client_id c false j
                      (record s { proxies = without client_id s.proxies }) ne split kind,
                )
          | inr d ↦ rw (e, d) (refl, refl)
        ]
        | inr e ↦ elim (Bool-cases disconnects) [
          | inl d ↦ rw (e, d) (refl, bots-set_client_connected client_id c false j s ne split kind)
          | inr d ↦ rw (e, d) (refl, bots-set_client_connected client_id c false j s ne split kind)
        ]
      ]
