-- ===== src/Tests/Suspended.antt =====
-- suspense.go: a render with two asynchronous components, and one with nine.
use nanite_render.Prelude.{
  ℕ, ◌+◌, ◌≡◌, refl, inl, true, none, some, codes, ◌==◌, if◌then◌else◌, List, [], ◌∷◌, arith,
}
use nanite_render.Suspense.{
  Payload, response, exited, Coordinator, started, finish, abandon, send, begin_drain, end_wait,
  pull, close_channel, work, submit, close, cancel, Reach, here, later,
}
use nanite_render.Suspense.Safety.{IsSafe, Reach-IsSafe}
use nanite_render.Suspense.Progress.{Ends, closing-Ends}
use nanite_render.Suspense.Delivery.{
  submitted, total, pick, written, erroneous, chunks, exited_delivered,
}
use nanite_render.Suspense.Deadlock.{stuck, crash, OnlyCancel, stuck_lem}

-- two workers at the end of the render
abbrev two : Coordinator ℕ
two = record started { rendering = 2 ∷ 1 ∷ []; closing = true }

two_reached : Reach started two
two_reached =
    later (later (later here (submit 1 refl refl refl)) (submit 2 refl refl refl)) (close refl)

Reach-IsSafe_example : IsSafe two
Reach-IsSafe_example = Reach-IsSafe two_reached refl

closing-Ends_example : Ends two
closing-Ends_example = closing-Ends two two_reached refl refl (omega arith)

-- One of them is delivered, and the other panics.
abbrev over : Coordinator ℕ
over = record started { closing = true; phase = exited; out = 2 ∷ []; dropped = 1 ∷ [] }

abbrev one_left : Coordinator ℕ
one_left = record started { rendering = 1 ∷ []; queue = 2 ∷ []; closing = true }

one_left_reached : Reach started one_left
one_left_reached =
    later (later two_reached (work (finish 2 (1 ∷ []) ([], 1 ∷ [], refl, refl) refl)))
      (work (send 2 [] ([], [], refl, refl) (λ e. absurd (cc e)) (omega arith) refl))

abbrev over_reached : Reach started over
over_reached =
    later
      (later
        (later
          (later (later one_left_reached (work (abandon 1 [] ([], [], refl, refl) refl)))
            (work (begin_drain refl (inl refl) refl)))
          (work (end_wait refl (inl (refl, refl)) refl)))
        (work (pull 2 [] refl refl refl)))
      (work (close_channel refl refl refl))

-- the second worker has rendered, and the first has returned an error
abbrev sent : ℕ → Payload
sent n =
    if n == 2
    then record { id = codes "feed"; buf = codes "<p>"; err = none }
    else record { id = codes "ads"; buf = []; err = some (codes "timeout") }

written_two : written sent (1 ∷ 2 ∷ []) ≡ 2 ∷ []
unfolding written pick
written_two = refl

exited_delivered_example :
    (total (λ x. x) (submitted over_reached)
      ≡ total (λ x. x) (written sent (2 ∷ []))
        + total (λ x. x) (erroneous sent (2 ∷ []))
        + total (λ x. x) (1 ∷ []))
    × (response (chunks sent (2 ∷ [])) ≡ response (chunks sent (written sent (2 ∷ []))))
exited_delivered_example = exited_delivered sent (λ x. x) over_reached refl refl

abbrev eight : List ℕ
eight = 1 ∷ 2 ∷ 3 ∷ 4 ∷ 5 ∷ 6 ∷ 7 ∷ 8 ∷ []

stuck_lem_example :
    Reach started (stuck eight 9)
    × OnlyCancel (stuck eight 9) (record (stuck eight 9) { cancelled = true })
    × Reach (stuck eight 9) (crash eight 9)
stuck_lem_example =
    stuck_lem eight 9 (record (stuck eight 9) { cancelled = true }) refl (cancel refl)
