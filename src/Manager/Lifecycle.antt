-- ===== src/Manager/Lifecycle.antt =====
-- The lifecycle as a state machine: the transitions that `update` makes, the end of each wait, and
-- what `init` and the checksum decide.
use apf_ue4ss.Prelude.{
  ℕ, ◌-◌, String, true, false, ◌≡◌, ◌≢◌, ◌↔◌, ◌⊎◌, inl, inr, refl, ◌∙◌, ap, List, [], ◌∷◌,
  if◌then◌else◌, Bool-cases, Option-cases, arith, if-false, leb, ◌/◌,
}
use apf_ue4ss.Prelude.Int.{◌+ℤ◌}
use apf_ue4ss.Types.Enums.{
  LifecycleState, uninitialized, initialization, discovery, validation, generation,
  priority_registration, registration, connecting, syncing, active, resyncing, error_state,
}
use apf_ue4ss.Types.{SessionState}
use apf_ue4ss.Types.Json.{JsonOps}
use apf_ue4ss.Session.File.{Reading, stoll_error, json_error, good, after_read}
use apf_ue4ss.Session.{validate_checksum, set_checksum, set_game_name, set_slot_name}
use apf_ue4ss.Session.Counts.{validate_checksum_iff}
use apf_ue4ss.Registry.{all_registered, get_priority_clients}
use apf_ue4ss.Capabilities.Checksum.{compute_checksum}
use apf_ue4ss.Manager.{
  Manager, Surroundings, threw, timed_out, all_priority_registered, transition_to_unlocked, enter,
  handle_priority_registration, handle_registration, handle_connecting, handle_syncing,
  handle_active, handle_resyncing, handle_state, after_loading, load_once, generate,
}

error≢active : error_state ≢ active
error≢active h = cc

-- The transitions of the diagram of the lifecycle that a call of `update` makes.
pub data Edge : LifecycleState → LifecycleState → Type 0 where
  stay : (l : LifecycleState) → Edge l l
  all_priority : Edge priority_registration registration
  all_mods : Edge registration connecting
  slot_connected : Edge connecting syncing
  connection_failed : Edge connecting error_state
  synced : Edge syncing active
  mismatch : Edge syncing error_state
  reconnected : Edge resyncing active
  reconnection_failed : Edge resyncing error_state

pub reading_cases :
    (r : Reading SessionState)
    → (r ≡ stoll_error) ⊎ ((r ≡ json_error) ⊎ ((state : SessionState) × (r ≡ good state)))
reading_cases stoll_error = inl refl
reading_cases json_error = inr (inl refl)
reading_cases (good state) = inr (inr (state, refl))

module _ {J : Type 0} ⦃ops : JsonOps J⦄ (m : Manager J) (s : Surroundings) where
  priority-Edge :
      (elapsed : ℕ)
      → m.current_state ≡ priority_registration
      → Edge priority_registration (handle_priority_registration m s elapsed).0.current_state
  unfolding handle_priority_registration transition_to_unlocked
  priority-Edge elapsed h = elim (Bool-cases (all_priority_registered m)) [
    | inl e ↦ rw e all_priority
    | inr e ↦ elim (Bool-cases (timed_out elapsed m.config.timeouts.priority_registration_ms)) [
      | inl t ↦ rw (e, t) all_priority
      | inr t ↦ rw (e, t, h) (stay priority_registration)
    ]
  ]

  registration-Edge :
      (elapsed : ℕ)
      → m.current_state ≡ registration
      → Edge registration (handle_registration m s elapsed).0.current_state
  unfolding handle_registration enter transition_to_unlocked
  registration-Edge elapsed h = elim (Bool-cases (all_registered m.registry)) [
    | inl e ↦ rw e all_mods
    | inr e ↦ elim (Bool-cases (timed_out elapsed m.config.timeouts.registration_ms)) [
      | inl t ↦ rw (e, t) all_mods
      | inr t ↦ rw (e, t, h) (stay registration)
    ]
  ]

  connecting-Edge :
      (elapsed : ℕ)
      → m.current_state ≡ connecting
      → Edge connecting (handle_connecting m s elapsed).0.current_state
  unfolding handle_connecting enter transition_to_unlocked
  connecting-Edge elapsed h = elim (Bool-cases s.slot_connected) [
    | inl e ↦ rw e slot_connected
    | inr e ↦ elim (Bool-cases (timed_out elapsed m.config.timeouts.connection_ms)) [
      | inl t ↦ rw (e, t) connection_failed
      | inr t ↦ rw (e, t, h) (stay connecting)
    ]
  ]

  load_once-state : (load_once m s).0.current_state ≡ m.current_state
  unfolding load_once after_read after_loading
  load_once-state = elim (Bool-cases m.state_loaded) [
    | inl e ↦ rw e refl
    | inr e ↦ elim (reading_cases s.file) [
      | inl f ↦ rw (e, f) refl
      | inr (inl f) ↦ rw (e, f) refl
      | inr (inr (state, f)) ↦ rw (e, f) refl
    ]
  ]

  syncing-Edge : m.current_state ≡ syncing → Edge syncing (handle_syncing m s).0.current_state
  unfolding handle_syncing enter transition_to_unlocked
  syncing-Edge h =
      let l = (load_once m s).0 in
      let current =
        compute_checksum l.capabilities l.config.game_name l.config.ap_server.slot_name in
      elim (Bool-cases (load_once m s).1) [
        | inr f ↦ rw (f, load_once-state, h) (stay syncing)
        | inl f ↦ elim (Bool-cases (validate_checksum l.session current)) [
          | inl e ↦ rw (f, e) synced
          | inr e ↦ rw (f, e) mismatch
        ]
      ]

  active-Edge : m.current_state ≡ active → Edge active (handle_active m s).0.current_state
  unfolding handle_active
  active-Edge h = elim (Option-cases m.last_save) [
    | inl e ↦ rw (e, h) (stay active)
    | inr (last, e) ↦ elim (Bool-cases (leb 30 ((s.now - last) / 1000))) [
      | inl t ↦ rw (e, t, h) (stay active)
      | inr t ↦ rw (e, t, h) (stay active)
    ]
  ]

  resyncing-Edge :
      (elapsed : ℕ)
      → m.current_state ≡ resyncing
      → Edge resyncing (handle_resyncing m s elapsed).0.current_state
  unfolding handle_resyncing transition_to_unlocked
  resyncing-Edge elapsed h =
      let limit = m.config.timeouts.connection_ms +ℤ m.config.timeouts.connection_ms in
      elim (Bool-cases s.slot_connected) [
        | inl e ↦ rw e reconnected
        | inr e ↦ elim (Bool-cases (timed_out elapsed limit)) [
          | inl t ↦ rw (e, t) reconnection_failed
          | inr t ↦ rw (e, t, h) (stay resyncing)
        ]
      ]

  state-Edge :
      (l : LifecycleState) → m.current_state ≡ l → Edge l (handle_state m s).0.current_state
  unfolding handle_state
  state-Edge priority_registration h = rw (handle_state, h) (priority-Edge _ h)
  state-Edge registration h = rw (handle_state, h) (registration-Edge _ h)
  state-Edge connecting h = rw (handle_state, h) (connecting-Edge _ h)
  state-Edge syncing h = rw (handle_state, h) (syncing-Edge h)
  state-Edge active h = rw (handle_state, h) (active-Edge h)
  state-Edge resyncing h = rw (handle_state, h) (resyncing-Edge _ h)
  state-Edge error_state h = rw (handle_state, h) (rw h (stay error_state))
  state-Edge uninitialized h = rw (handle_state, h) (rw h (stay uninitialized))
  state-Edge initialization h = rw (handle_state, h) (rw h (stay initialization))
  state-Edge discovery h = rw (handle_state, h) (rw h (stay discovery))
  state-Edge validation h = rw (handle_state, h) (rw h (stay validation))
  state-Edge generation h = rw (handle_state, h) (rw h (stay generation))

  -- One call of the state handlers of `update` leaves the lifecycle state or follows an edge of
  -- the diagram; in particular nothing leads out of ERROR_STATE, DISCOVERY or the states of `init`.
  pub handle_state-Edge : Edge m.current_state (handle_state m s).0.current_state
  handle_state-Edge = state-Edge m.current_state refl

module _ {J : Type 0} ⦃ops : JsonOps J⦄ where
  load_fails :
      (m : Manager J) (s : Surroundings)
      → m.state_loaded ≡ false
      → s.file ≡ stoll_error
      → load_once m s ≡ (m, false)
  unfolding load_once after_read after_loading
  load_fails m s e f =
      if-false m.state_loaded _ _ e ∙ ap (λ r. after_loading m (after_read m.session r)) f

  -- `load_state` runs if the session has not been loaded, and lets an exception through exactly if
  -- the file makes `std::stoll` throw; nothing is changed then.
  load_once_cases :
      (m : Manager J) (s : Surroundings)
      → (((load_once m s).1 ≡ false)
          × (m.state_loaded ≡ false)
          × (s.file ≡ stoll_error)
          × ((load_once m s).0 ≡ m))
        ⊎ ((load_once m s).1 ≡ true)
  unfolding load_once after_read after_loading
  load_once_cases m s = elim (Bool-cases m.state_loaded) [
    | inl e ↦ inr (rw e refl)
    | inr e ↦ elim (reading_cases s.file) [
      | inl f ↦
          let fails = load_fails m s e f in inl (ap (λ r. r.1) fails, e, f, ap (λ r. r.0) fails)
      | inr (inl f) ↦ inr (rw (e, f) refl)
      | inr (inr (state, f)) ↦ inr (rw (e, f) refl)
    ]
  ]

  syncing_over :
      (m : Manager J) (s : Surroundings)
      → (load_once m s).1 ≡ true
      → let l = (load_once m s).0 in
        let current =
          compute_checksum l.capabilities l.config.game_name l.config.ap_server.slot_name in
        let after = (handle_syncing m s).0.current_state in
        ((after ≡ active)
          ↔ ((l.session.state.checksum ≡ "") ⊎ (l.session.state.checksum ≡ current)))
        × ((after ≡ active) ⊎ (after ≡ error_state))
  unfolding handle_syncing enter transition_to_unlocked
  syncing_over m s f =
      let l = (load_once m s).0 in
      let current =
        compute_checksum l.capabilities l.config.game_name l.config.ap_server.slot_name in
      let (passes, passed) = validate_checksum_iff l.session current in
      elim (Bool-cases (validate_checksum l.session current)) [
        | inl e ↦ rw (f, e) (((λ h. passes e), (λ h. refl)), inl refl)
        | inr e ↦
            rw (f, e)
              (
                ((λ h. absurd (error≢active h)), (λ h. absurd (ground (arith, e, passed h)))),
                inr refl,
              )
      ]

  -- Either the session is still to be loaded and its file makes `std::stoll` throw: then the
  -- exception leaves `handle_syncing`, which changes nothing. Or `handle_syncing` ends in ACTIVE
  -- exactly if the session, loaded if need be, has no checksum or the checksum of the capabilities,
  -- and in every other case in ERROR_STATE.
  pub handle_syncing_iff :
      (m : Manager J) (s : Surroundings)
      → let l = (load_once m s).0 in
        let current =
          compute_checksum l.capabilities l.config.game_name l.config.ap_server.slot_name in
        let after = (handle_syncing m s).0.current_state in
        ((m.state_loaded ≡ false) × (s.file ≡ stoll_error) × (handle_syncing m s ≡ (m, threw ∷ [])))
        ⊎ (((load_once m s).1 ≡ true)
            × ((after ≡ active)
                ↔ ((l.session.state.checksum ≡ "") ⊎ (l.session.state.checksum ≡ current)))
            × ((after ≡ active) ⊎ (after ≡ error_state)))
  unfolding handle_syncing
  handle_syncing_iff m s = elim (load_once_cases m s) [
    | inl (f, fresh, file, same) ↦ inl (fresh, file, rw (f, same) refl)
    | inr f ↦ let (iff, ends) = syncing_over m s f in inr (f, iff, ends)
  ]

  -- What a wait that is over does to the manager.
  abbrev moved : Manager J → ℕ → LifecycleState → Manager J
  moved m now l = record m { current_state = l; state_entered_at = now }

  priority_over :
      (m : Manager J) (s : Surroundings)
      → m.current_state ≡ priority_registration
      → timed_out (s.now - m.state_entered_at) m.config.timeouts.priority_registration_ms ≡ true
      → (handle_state m s).0 ≡ moved m s.now registration
  unfolding handle_state handle_priority_registration transition_to_unlocked
  priority_over m s h t = elim (Bool-cases (all_priority_registered m)) [
    | inl e ↦ rw (handle_state, h, e) refl
    | inr e ↦ rw (handle_state, h, e, t) refl
  ]

  registration_over :
      (m : Manager J) (s : Surroundings)
      → m.current_state ≡ registration
      → timed_out (s.now - m.state_entered_at) m.config.timeouts.registration_ms ≡ true
      → (handle_state m s).0 ≡ moved m s.now connecting
  unfolding handle_state handle_registration enter transition_to_unlocked
  registration_over m s h t = elim (Bool-cases (all_registered m.registry)) [
    | inl e ↦ rw (handle_state, h, e) refl
    | inr e ↦ rw (handle_state, h, e, t) refl
  ]

  connecting_over :
      (m : Manager J) (s : Surroundings)
      → m.current_state ≡ connecting
      → timed_out (s.now - m.state_entered_at) m.config.timeouts.connection_ms ≡ true
      → (handle_state m s).0.current_state ≡ (if s.slot_connected then syncing else error_state)
  unfolding handle_state handle_connecting enter transition_to_unlocked
  connecting_over m s h t = elim (Bool-cases s.slot_connected) [
    | inl e ↦ rw (handle_state, h, e) refl
    | inr e ↦ rw (handle_state, h, e, t) refl
  ]

  -- Three runs of the state handlers of `update` whose clock has passed the timeout of the wait in question each end the
  -- waiting that begins with PRIORITY_REGISTRATION: whatever mods registered, the framework is then
  -- in SYNCING or in ERROR_STATE, and in SYNCING exactly if the slot is connected at the last one.
  pub waiting_ends :
      (m : Manager J) (s1 s2 s3 : Surroundings)
      → m.current_state ≡ priority_registration
      → timed_out (s1.now - m.state_entered_at) m.config.timeouts.priority_registration_ms ≡ true
      → timed_out (s2.now - s1.now) m.config.timeouts.registration_ms ≡ true
      → timed_out (s3.now - s2.now) m.config.timeouts.connection_ms ≡ true
      → (handle_state (handle_state (handle_state m s1).0 s2).0 s3).0.current_state
        ≡ (if s3.slot_connected then syncing else error_state)
  waiting_ends m s1 s2 s3 h t1 t2 t3 =
      let m1 = moved m s1.now registration in
      let m2 = moved m1 s2.now connecting in
      rw (priority_over m s1 h t1, registration_over m1 s2 refl t2) (connecting_over m2 s3 refl t3)

  -- The session has the checksum of the capabilities under a game name.
  abbrev Sealed : Manager J → String → Type 0
  Sealed g game_name =
      g.session.state.checksum
      ≡ compute_checksum g.capabilities game_name g.config.ap_server.slot_name

  generate-Sealed :
      (m : Manager J) (now : ℕ) (game_name : String) (clients : List String)
      → get_priority_clients m.registry ≡ clients
      → Sealed (generate m now game_name).0 game_name
        × ((generate m now game_name).0.config ≡ m.config)
  unfolding generate transition_to_unlocked set_checksum set_game_name set_slot_name
  generate-Sealed m now game_name [] h = rw (generate, h) (refl, refl)
  generate-Sealed m now game_name (client ∷ clients) h = rw (generate, h) (refl, refl)

  load_once-Sealed :
      (g : Manager J) (s : Surroundings) (game_name : String)
      → s.file ≡ json_error
      → Sealed g game_name
      → Sealed (load_once g s).0 game_name
        × ((load_once g s).0.config ≡ g.config)
        × ((load_once g s).1 ≡ true)
  unfolding load_once after_read after_loading
  load_once-Sealed g s game_name h sealed = elim (Bool-cases g.state_loaded) [
    | inl e ↦ rw e (sealed, refl, refl)
    | inr e ↦ rw (e, h) (sealed, refl, refl)
  ]

  -- After `generate` with the game name of the configuration, a start without a session file that reads
  -- as JSON passes the checksum: `handle_syncing` ends in ACTIVE.
  pub generate-handle_syncing :
      (m : Manager J) (now : ℕ) (s : Surroundings)
      → s.file ≡ json_error
      → (handle_syncing (generate m now m.config.game_name).0 s).0.current_state ≡ active
  generate-handle_syncing m now s h =
      let game_name = m.config.game_name in
      let g = (generate m now game_name).0 in
      let (sealed, same) = generate-Sealed m now game_name (get_priority_clients m.registry) refl in
      let (loaded, kept, loads) = load_once-Sealed g s game_name h sealed in
      let named : (load_once g s).0.config.game_name ≡ game_name =
        ap (λ c. c.game_name) (kept ∙ same) in
      (syncing_over g s loads).0.1 (inr (rw named loaded))
