-- ===== src/Http/Bounded.antt =====
-- The body limit against an independent reading of the message sequence: the request's part of it.
use kernexys.Prelude.{
  ℕ, ◌+◌, ◌≤◌, ◌<◌, ◌≡◌, refl, ap, ◌∙◌, Bool, true, false, Option, List, [], ◌∷◌, ◌++◌, ltb, arith,
  Bool-cases, inl, inr,
}
use mathlib.Core.List.{append_assoc}
use kernexys.Http.{Message, disconnect, request}
use kernexys.Http.Limit.{forwarded, rejected, body_size, more, buffer}

-- The bytes of all bodies.
abbrev pub total_size : List Message → ℕ
total_size [] = 0
total_size (disconnect ∷ ms) = total_size ms
total_size (request body more_body ∷ ms) = body_size body + total_size ms

-- A whole request: messages that announce more, then a last one or a disconnect.
pub data IsRequest : List Message → Type 0 where
  dropped : IsRequest (disconnect ∷ [])
  last :
      (body : Option (List ℕ)) (m : Option Bool) → more m ≡ false → IsRequest (request body m ∷ [])
  part :
      (body : Option (List ℕ)) (m : Option Bool) {ms : List Message}
      → more m ≡ true
      → IsRequest ms
      → IsRequest (request body m ∷ ms)

-- Where reading stopped: `front` fits, and with `final` the bytes pass the limit.
pub record IsOverrun (max_bytes : ℕ) (ms front : List Message) (final : Message)
    (rest : List Message) : Type 0 where
  pub whole : front ++ final ∷ rest ≡ ms
  pub fits : total_size front ≤ max_bytes
  pub passes : max_bytes < total_size (front ++ final ∷ [])

pub total_size-append :
    (xs ys : List Message) → total_size (xs ++ ys) ≡ total_size xs + total_size ys
total_size-append [] ys = omega arith
total_size-append (disconnect ∷ xs) ys = total_size-append xs ys
total_size-append (request body m ∷ xs) ys = omega (arith, total_size-append xs ys)

module _ {R : Type 0} (replayed : List Message → List Message → R) (max_bytes : ℕ) where
  -- The whole request fits: it is forwarded with all of its messages.
  pub buffer_fits :
      {ms : List Message} (rest buffered : List Message) (total : ℕ)
      → IsRequest ms
      → total + total_size ms ≤ max_bytes
      → buffer replayed max_bytes total buffered (ms ++ rest)
        ≡ forwarded (replayed (buffered ++ ms) rest)
  unfolding buffer
  buffer_fits rest buffered total dropped h = refl
  buffer_fits rest buffered total (last body m e) h =
      let small : ltb max_bytes (total + body_size body) ≡ false = ground arith in rw (e, small)
  buffer_fits rest buffered total (part body m {ms} e r) h =
      let small : ltb max_bytes (total + body_size body) ≡ false = ground arith in
      rw (e, small)
        (buffer_fits rest (buffered ++ request body m ∷ []) (total + body_size body) r (omega arith)
          ∙ ap (λ b. forwarded (replayed b rest)) (append_assoc buffered (request body m ∷ []) ms))

  -- It does not fit: reading stops at the message that passes the limit.
  pub buffer-IsOverrun :
      {ms : List Message} (rest buffered : List Message)
      → IsRequest ms
      → total_size buffered ≤ max_bytes
      → max_bytes < total_size buffered + total_size ms
      → (front : List Message) × (final : Message) × (later : List Message) × (buffer replayed
            max_bytes
            (total_size buffered)
            buffered
            (ms ++ rest)
          ≡ rejected (replayed (front ++ final ∷ []) later))
        × IsOverrun max_bytes (buffered ++ (ms ++ rest)) front final later
  unfolding buffer
  buffer-IsOverrun rest buffered dropped a b = absurd (omega arith)
  buffer-IsOverrun rest buffered (last body m e) a b =
      let large : ltb max_bytes (total_size buffered + body_size body) ≡ true = ground arith in
      (
        buffered,
        request body m,
        rest,
        rw large,
        record {
          whole = refl;
          fits = a;
          passes = omega (arith, total_size-append buffered (request body m ∷ []));
        },
      )
  buffer-IsOverrun rest buffered (part body m {ms} e r) a b =
      elim (Bool-cases (ltb max_bytes (total_size buffered + body_size body))) [
        | inl large ↦ (
          buffered,
          request body m,
          ms ++ rest,
          rw large,
          record {
            whole = refl;
            fits = a;
            passes = ground (arith, total_size-append buffered (request body m ∷ []));
          },
        )
        | inr small ↦
            let size : total_size (buffered ++ request body m ∷ [])
                ≡ total_size buffered + body_size body =
              omega (arith, total_size-append buffered (request body m ∷ [])) in
            let (front, final, later, run, over) =
              buffer-IsOverrun rest (buffered ++ request body m ∷ []) r (ground arith)
                (omega arith) in
            (
              front,
              final,
              later,
              rw (small, e, ← size) run,
              record {
                whole = over.whole ∙ append_assoc buffered (request body m ∷ []) (ms ++ rest);
                fits = over.fits;
                passes = over.passes;
              },
            )
      ]
