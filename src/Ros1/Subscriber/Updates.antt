-- ===== src/Ros1/Subscriber/Updates.antt =====
-- The connections after a `publisherUpdate`, and a race between an old and a new reader task.
use roslibrust.Base.{
  ℕ, ◌+◌, ◌≡◌, refl, ◌∙◌, Bool, true, false, not, ◌&&◌, none, List, [], ◌∷◌, arith, Text, text_eq,
  text_eq_iff, if◌then◌else◌, get, insert, remove, keys, contains_key, member, member-keys,
  get-insert, get-remove, Option-cases, inl, inr, text_eq_refl,
}
use roslibrust.Ros1.Subscriber.{
  PublisherConnection, Task, cancel, PublisherConnectionState, no_connections, add_publisher_source,
  drop_stale, stale_uris, remove_stale_publishers, add_publisher_sources, publisher_update,
  task_exits,
}

add-contains :
    (uri u : Text) (st : PublisherConnectionState)
    → contains_key u (add_publisher_source uri st).connections
      ≡ (if text_eq uri u then true else contains_key u st.connections)
unfolding add_publisher_source
add-contains uri u st = grind (arith, get-insert, text_eq_iff uri u)

adds-contains :
    (uris : List Text) (u : Text) (st : PublisherConnectionState)
    → contains_key u (add_publisher_sources uris st).connections
      ≡ (if member u uris then true else contains_key u st.connections)
unfolding add_publisher_sources
adds-contains [] u st = refl
adds-contains (uri ∷ uris) u st =
    ground (arith, adds-contains uris u (add_publisher_source uri st), add-contains uri u st)

drop_stale-contains :
    (uris : List Text) (u : Text) (st : PublisherConnectionState)
    → contains_key u (drop_stale uris st).connections
      ≡ (if member u uris then false else contains_key u st.connections)
unfolding drop_stale
drop_stale-contains [] u st = refl
drop_stale-contains (uri ∷ uris) u st = elim (Option-cases (get uri st.connections)) [
  | inl e ↦ rw (e, drop_stale) (drop_stale-contains uris u st ∙ ground (arith, text_eq_iff uri u))
  | inr (conn, e) ↦
      rw (e, drop_stale)
        (drop_stale-contains uris u _ ∙ rw (get-remove uri u st.connections) (ground (arith)))
]

member-stale :
    (current uris : List Text) (u : Text)
    → member u (stale_uris current uris) ≡ (member u uris && not (member u current))
unfolding stale_uris
member-stale current [] u = refl
member-stale current (uri ∷ uris) u = ground (arith, member-stale current uris u, text_eq_iff uri u)

-- After a `publisherUpdate` the subscription has a connection for the publishers named, and for
-- no other.
pub publisher_update-connections :
    (publishers : List Text) (st : PublisherConnectionState) (u : Text)
    → contains_key u (publisher_update publishers st).connections ≡ member u publishers
unfolding publisher_update remove_stale_publishers
publisher_update-connections publishers st u = ground (
  arith,
  adds-contains publishers u (drop_stale (stale_uris publishers (keys st.connections)) st),
  drop_stale-contains (stale_uris publishers (keys st.connections)) u st,
  member-stale publishers (keys st.connections) u,
  member-keys u st.connections,
)

-- The reader tasks of a URI that have not been told to end.
abbrev pub live_tasks : Text → List Task → ℕ
live_tasks u [] = 0
live_tasks u (t ∷ ts) = (if text_eq t.uri u && not t.cancelled then 1 else 0) + live_tasks u ts

-- The states of the race for one publisher: its task's number and the tasks that run.
abbrev entry : ℕ → PublisherConnection
entry token = record { tcp_endpoint = none; token = token }

abbrev reader : ℕ → Text → Bool → Task
reader number u cancelled = record { number = number; uri = u; cancelled = cancelled }

module _ (u : Text) where
  update_unlisted :
      (tasks : List Task) (spawned : ℕ)
      → publisher_update (u ∷ []) (record { connections = []; tasks = tasks; spawned = spawned })
        ≡ record {
          connections = (u, entry spawned) ∷ [];
          tasks = reader spawned u false ∷ tasks;
          spawned = spawned + 1;
        }
  unfolding publisher_update add_publisher_sources remove_stale_publishers keys get insert
  update_unlisted tasks spawned = refl

  update_gone :
      (tasks : List Task) (token spawned : ℕ)
      → publisher_update []
          (record { connections = (u, entry token) ∷ []; tasks = tasks; spawned = spawned })
        ≡ record { connections = []; tasks = cancel token tasks; spawned = spawned }
  unfolding publisher_update add_publisher_sources remove_stale_publishers keys get insert remove
  update_gone tasks token spawned = ground (arith, text_eq_iff u u)

  -- A publisher that goes and comes back before its first reader task has ended is read twice: the
  -- late end of the first task removes the entry of the second, and the next update that names
  -- the publisher starts a third, while the second runs on.
  pub late_exit_doubles_reader :
      let listed = publisher_update (u ∷ []) no_connections in
      let relisted = publisher_update (u ∷ []) (publisher_update [] listed) in
      live_tasks u (publisher_update (u ∷ []) (task_exits 0 u relisted)).tasks ≡ 2
  late_exit_doubles_reader = rw (update_unlisted [] 0) (
      rw (update_gone (reader 0 u false ∷ []) 0 1) (
        rw (update_unlisted (reader 0 u true ∷ []) 1)
          (rw late_exit (rw (update_unlisted (reader 1 u false ∷ []) 2) (rw (text_eq_refl u))))))
    where
      late_exit :
          task_exits 0 u (record {
            connections = (u, entry 1) ∷ [];
            tasks = reader 1 u false ∷ reader 0 u true ∷ [];
            spawned = 2;
          })
          ≡ record { connections = []; tasks = reader 1 u false ∷ []; spawned = 2 }
      late_exit = unfold task_exits remove in ground (arith, text_eq_iff u u)
