-- ===== src/Response/Objects.antt =====
-- What `affectedObjects` of internal/app/coordinator/response.go lists.
use mcp_k8s.Base.{
  String, ◌≡◌, ◌||◌, List, [], ◌∷◌, Perm, arith, num_keys, text_keys, contains, add_key,
  contains-add_key, NoRepeat, add_key-NoRepeat, Ranging,
}
use mcp_k8s.Correlation.{CorrelatedEvent, Timeline}
use mcp_k8s.Response.{object_of, seen_objects, affected_objects}

abbrev pub objects_of : List CorrelatedEvent → List String
objects_of [] = []
objects_of (ce ∷ ces) = object_of ce ∷ objects_of ces

seen_objects-NoRepeat :
    (seen : List String) (ces : List CorrelatedEvent)
    → NoRepeat seen
    → NoRepeat (seen_objects seen ces)
unfolding seen_objects
seen_objects-NoRepeat seen [] h = h
seen_objects-NoRepeat seen (ce ∷ ces) h =
    seen_objects-NoRepeat (add_key (object_of ce) seen) ces (add_key-NoRepeat (object_of ce) seen h)

contains-seen_objects :
    (seen : List String) (ces : List CorrelatedEvent) (k : String)
    → contains k (seen_objects seen ces) ≡ (contains k seen || contains k (objects_of ces))
unfolding seen_objects
contains-seen_objects seen [] k = ground arith
contains-seen_objects seen (ce ∷ ces) k = ground (
  arith,
  contains-seen_objects (add_key (object_of ce) seen) ces k,
  contains-add_key (object_of ce) k seen,
  text_keys.test_iff k (object_of ce),
  text_keys.test_iff (object_of ce) k,
)

-- The affected objects are, in some order and each once, the objects of the events of the
-- timeline.
pub affected_objects_lem :
    (r : Ranging String) (tl : Timeline)
    → (objects : List String) × Perm (affected_objects r tl) objects
      × NoRepeat objects
      × ((k : String) → contains k objects ≡ contains k (objects_of tl.events))
unfolding affected_objects
affected_objects_lem r tl = (
  seen_objects [] tl.events,
  r.order-perm (seen_objects [] tl.events),
  seen_objects-NoRepeat [] tl.events tt,
  contains-seen_objects [] tl.events,
)
