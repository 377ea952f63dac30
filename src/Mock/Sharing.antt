-- ===== src/Mock/Sharing.antt =====
-- Who shares a channel of the mock, and what a call of a service gives.
use roslibrust.Base.{
  ℕ, ◌≡◌, refl, subst, ◌∙◌, Option, some, List, Text, text_eq, text_eq_refl, get, get-insert,
  Result, ok, Bool-cases, Option-cases, inl, inr,
}
use roslibrust.Mock.{MockError, MockRos, MockPublisher, advertise_service, erased_closure, call}

-- A topic has the channel and the type.
abbrev Has : Text → Text → ℕ → MockRos → Type 0
Has topic type_name channel ros =
    get topic ros.topics ≡ some (record { channel = channel; type_name = type_name })

-- A result of `advertise` whose publisher has the channel of the topic.
abbrev Shares : Text → Text → Result MockError (MockRos × MockPublisher) → Type 0
Shares topic type_name (ok (ros, p)) = Has topic type_name p.sender ros
Shares topic type_name _ = Unit {0}

module _ {Request Response : Type 0} (serialize_request : Request → Option (List ℕ))
    (deserialize_request : List ℕ → Option Request)
    (serialize_response : Response → Option (List ℕ))
    (deserialize_response : List ℕ → Option Response) where
  abbrev Serves :
      Text → Text → (Request → Result MockError Response) → Result MockError MockRos → Type 0
  Serves service type_name server (ok ros) =
      get service ros.services
      ≡ some (record {
        callback =
            erased_closure serialize_request deserialize_request serialize_response
              deserialize_response server;
        type_name = type_name;
      })
  Serves service type_name server _ = Unit {0}

  advertise_service-Serves :
      (service type_name : Text) (server : Request → Result MockError Response) (ros : MockRos)
      → Serves service type_name server (
          advertise_service serialize_request deserialize_request serialize_response
            deserialize_response service type_name server ros)
  unfolding advertise_service
  advertise_service-Serves service type_name server ros =
      let put = get-insert service service _ ros.services ∙ rw (text_eq_refl service) refl in
      elim (Option-cases (get service ros.services)) [
        | inl e ↦ rw (e, advertise_service) put
        | inr (existing, e) ↦ elim (Bool-cases (text_eq existing.type_name type_name)) [
          | inl t ↦ rw (e, advertise_service) (rw t put)
          | inr t ↦ rw (e, advertise_service) (rw t tt)
        ]
      ]

  -- A call of a service that was just made known gives what its server gives for the request, if
  -- the request and the response survive bincode.
  pub call-advertise_service :
      (service type_name : Text) (server : Request → Result MockError Response) (ros ros' : MockRos)
      (request : Request) (response : Response) (sent answered : List ℕ)
      → advertise_service serialize_request deserialize_request serialize_response
          deserialize_response service type_name server ros
        ≡ ok ros'
      → serialize_request request ≡ some sent
      → deserialize_request sent ≡ some request
      → serialize_response response ≡ some answered
      → deserialize_response answered ≡ some response
      → server request ≡ ok response
      → call serialize_request deserialize_request serialize_response deserialize_response service
          request ros'
        ≡ ok response
  unfolding call
  call-advertise_service service type_name server ros ros' request response sent answered h s1 d1 s2
        d2 e =
      let entry =
        subst (Serves service type_name server) h
          (advertise_service-Serves service type_name server ros) in
      rw (entry, call) (rw s1 (rw d1 (rw e (rw s2 (rw d2 refl)))))
