-- ===== src/Db/Endpoints.antt =====
-- src/db.rs: the tables of outbound endpoints and of what they subscribe to.
use Prim.Native.String
use Prim.Native.Nat.{Ordering}
use qhook.Prelude.{
  ℕ, Bool, true, false, ◌&&◌, ◌||◌, Option, none, some, String, List, [], ◌∷◌, ◌++◌, ltb, map,
  if◌then◌else◌,
}
use qhook.Prelude.Classes.{◌==◌, string_eq}
use qhook.Sql.{update_where, count_where, select_where, delete_where, exists_where, find_where}
use qhook.Db.{unique_violation, Result, ok, err}

pub record EndpointRow : Type 0 where
  pub id : String
  pub source : String
  pub url : String
  pub description : Option String
  pub signing_secret : String
  pub status : String
  pub created_at : ℕ
  pub updated_at : ℕ

pub record SubscriptionRow : Type 0 where
  pub id : String
  pub endpoint_id : String
  pub event_type : String
  pub created_at : ℕ

pub record Outbound : Type 0 where
  pub endpoints : List EndpointRow
  pub subscriptions : List SubscriptionRow

unfoldable pub has_id : String → EndpointRow → Bool
has_id id e = e.id == id

unfoldable pub insert_endpoint :
    String
    → String
    → String
    → Option String
    → String
    → String
    → ℕ
    → Outbound
    → Outbound × Result (Unit {0})
insert_endpoint id source url description signing_secret status now o =
    if exists_where (has_id id) o.endpoints then (o, err unique_violation) else (
      record o {
        endpoints =
            o.endpoints
            ++ (record {
              id = id;
              source = source;
              url = url;
              description = description;
              signing_secret = signing_secret;
              status = status;
              created_at = now;
              updated_at = now;
            })
              ∷ [];
      },
      ok tt,
    )

unfoldable pub get_endpoint : String → Outbound → Option EndpointRow
get_endpoint id o = find_where (has_id id) o.endpoints

-- `unwrap_or`, and `or` for the description
abbrev given_or : {A : Type 0} → A → Option A → A
given_or a none = a
given_or a (some b) = b

abbrev first_of : {A : Type 0} → Option A → Option A → Option A
first_of none b = b
first_of (some a) b = some a

-- The row is read, and written with what is not given as it was.
unfoldable pub update_endpoint :
    String → Option String → Option String → Option String → ℕ → Outbound → Outbound × Bool
unfolding get_endpoint
update_endpoint id url description status now o = elim (get_endpoint id o) [
  | none ↦ (o, false)
  | some current ↦ (
    record o {
      endpoints =
          update_where (has_id id)
            (λ e. record e {
              url = given_or current.url url;
              description = first_of description current.description;
              status = given_or current.status status;
              updated_at = now;
            })
            o.endpoints;
    },
    ltb 0 (count_where (has_id id) o.endpoints),
  )
]

unfoldable pub of_endpoint : String → SubscriptionRow → Bool
of_endpoint id s = s.endpoint_id == id

-- The subscriptions go first.
unfoldable pub delete_endpoint : String → Outbound → Outbound × Bool
delete_endpoint id o = (
  record {
    endpoints = delete_where (has_id id) o.endpoints;
    subscriptions = delete_where (of_endpoint id) o.subscriptions;
  },
  ltb 0 (count_where (has_id id) o.endpoints),
)

unfoldable pub rotate_endpoint_secret : String → String → ℕ → Outbound → Outbound × Bool
rotate_endpoint_secret id new_secret now o = (
  record o {
    endpoints =
        update_where (has_id id) (λ e. record e { signing_secret = new_secret; updated_at = now })
          o.endpoints;
  },
  ltb 0 (count_where (has_id id) o.endpoints),
)

-- The unique index on the endpoint and the event type.
unfoldable pub is_subscribed : String → String → List SubscriptionRow → Bool
is_subscribed endpoint_id event_type =
    exists_where (λ s. s.endpoint_id == endpoint_id && s.event_type == event_type)

-- The ULIDs are handed over with the types, and none of them is the id of a row. What is there
-- already is skipped; the rows that are new are returned.
unfoldable pub insert_subscriptions :
    String → List (String × String) → ℕ → Outbound → Outbound × List SubscriptionRow
unfolding is_subscribed
insert_subscriptions endpoint_id [] now o = (o, [])
insert_subscriptions endpoint_id ((id, event_type) ∷ types) now o =
    let row : SubscriptionRow = record {
      id = id;
      endpoint_id = endpoint_id;
      event_type = event_type;
      created_at = now;
    } in
    elim (is_subscribed endpoint_id event_type o.subscriptions) [
      | true ↦ insert_subscriptions endpoint_id types now o
      | false ↦
          (let (o', rows) =
              insert_subscriptions endpoint_id types now
                (record o { subscriptions = o.subscriptions ++ row ∷ [] }) in
            (o', row ∷ rows))
    ]

unfoldable pub delete_subscription : String → Outbound → Outbound × Bool
delete_subscription id o = (
  record o { subscriptions = delete_where (λ s. s.id == id) o.subscriptions },
  ltb 0 (count_where (λ s. s.id == id) o.subscriptions),
)

pub record SubscribedEndpoint : Type 0 where
  pub id : String
  pub url : String
  pub signing_secret : String

-- e.source = $1 AND e.status = 'active', joined to a subscription to the type or to all
unfoldable pub is_addressed : String → String → Outbound → EndpointRow → Bool
unfolding is_subscribed
is_addressed source event_type o e =
    e.source == source
    && e.status == "active"
    && (is_subscribed e.id event_type o.subscriptions || is_subscribed e.id "*" o.subscriptions)

-- ORDER BY id
unfoldable pub insert_by_id : EndpointRow → List EndpointRow → List EndpointRow
insert_by_id e [] = e ∷ []
insert_by_id e (r ∷ rs) =
    let later = r ∷ insert_by_id e rs in
    elim (String.compare e.id r.id) [ Ordering.lt ↦ e ∷ r ∷ rs | _ ↦ later ]

unfoldable pub order_by_id : List EndpointRow → List EndpointRow
unfolding insert_by_id
order_by_id [] = []
order_by_id (r ∷ rs) = insert_by_id r (order_by_id rs)

-- DISTINCT: an endpoint that two of its subscriptions find is one row, as ids are unique.
unfoldable pub find_subscribed_endpoints : String → String → Outbound → List SubscribedEndpoint
unfolding is_addressed order_by_id
find_subscribed_endpoints source event_type o =
    map (λ e. record { id = e.id; url = e.url; signing_secret = e.signing_secret })
      (order_by_id (select_where (is_addressed source event_type o) o.endpoints))
