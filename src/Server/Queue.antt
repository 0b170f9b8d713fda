-- ===== src/Server/Queue.antt =====
-- The requests of a connection as a queue: what `waiting` of src/server/proto.rs is for.
use minihttp.Base.{◌≡◌, refl, sym, ◌∙◌, List, [], ◌∷◌, ◌++◌, append_assoc}
use minihttp.Server.State.{Entry, Event, accepted, started, hijacked, Connection}

-- The events, the last first, are those of a queue that was empty at first and holds these entries
-- now: an accepted request goes to its end, and the one that is started comes from its front.
pub data Serves {C : Type 0} : List (Event C) → List (Entry C) → Type 0 where
  nothing : Serves [] []
  accept :
      {h : List (Event C)} {q q' : List (Entry C)} {x : Entry C}
      → Serves h q
      → q' ≡ q ++ (x ∷ [])
      → Serves (accepted x ∷ h) q'
  start :
      {h : List (Event C)} {q : List (Entry C)} {x : Entry C}
      → Serves h (x ∷ q)
      → Serves (started x ∷ h) q
  hand_over :
      {h : List (Event C)} {q : List (Entry C)} {c : C} → Serves h q → Serves (hijacked c ∷ h) q

abbrev pub IsServing : {D C F : Type 0} → Connection D C F → Type 0
IsServing c = Serves c.history c.waiting

-- The requests that were accepted, and those whose response was started, in their order.
unfoldable pub accepts : {C : Type 0} → List (Event C) → List (Entry C)
accepts [] = []
accepts (accepted x ∷ h) = accepts h ++ (x ∷ [])
accepts (started x ∷ h) = accepts h
accepts (hijacked c ∷ h) = accepts h

unfoldable pub starts : {C : Type 0} → List (Event C) → List (Entry C)
starts [] = []
starts (accepted x ∷ h) = starts h
starts (started x ∷ h) = starts h ++ (x ∷ [])
starts (hijacked c ∷ h) = starts h

pub in_order :
    {C : Type 0} {h : List (Event C)} {q : List (Entry C)} → Serves h q → accepts h ≡ starts h ++ q
unfolding accepts starts
in_order nothing = refl
in_order (accept {h = h} {q = q} {x = x} s e) =
    rw (in_order s, e) (append_assoc (starts h) q (x ∷ []))
in_order (start {h = h} {q = q} {x = x} s) = in_order s ∙ sym (append_assoc (starts h) (x ∷ []) q)
in_order (hand_over s) = in_order s
