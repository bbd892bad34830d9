-- ===== src/Integration/RoundTrip.antt =====
-- Tasks and results of task_8/homework as text, and back.
use sem.Base.{
  ℕ, zero, suc, ◌+◌, ◌≤◌, ◌<◌, ◌≡◌, refl, false, some, [], ◌∷◌, ◌++◌, arith, leb, ◌==◌, length,
  length-append, take, All, All-append, sym, ap, ◌∙◌, append-nil,
}
use sem.Text.{Bytes, codes, starts_with, cstr}
use sem.Numbers.{decimal, size_mod, length-decimal, decimal-All, scan_size, scan_size-decimal}
use sem.Integration.Floats.{Floats, IsPrinted}
use sem.Integration.Messages.{
  Task, colon, serialize_task, scan_field, deserialize_task, Result, serialize_result,
  deserialize_result,
}

pub cstr-take-with_null :
    (s : Bytes) (n : ℕ)
    → All (λ c. (c == 0) ≡ false) s
    → length s < n
    → cstr (take n (s ++ 0 ∷ [])) ≡ s
unfolding cstr
cstr-take-with_null s zero h short = absurd (omega arith)
cstr-take-with_null [] (suc n) h short = refl
cstr-take-with_null (c ∷ s) (suc n) h short = rw (h.0, cstr-take-with_null s n h.1 (omega arith))

decimal-no_null : (n : ℕ) → All (λ c. (c == 0) ≡ false) (decimal n)
decimal-no_null n = decimal-All (λ c. (c == 0) ≡ false) (λ c d. ground arith) n

scan_size-decimal_end : (n : ℕ) → n < size_mod → scan_size (decimal n) ≡ some (n, [])
scan_size-decimal_end n h =
    ap scan_size (sym (append-nil (decimal n))) ∙ scan_size-decimal n [] h tt

module _ (f : Floats) where
  open f use {Double, show, scan, rounded}

  -- Every number of the task is printed as documented, and the count fits size_t.
  pub record IsSendable (t : Task Double) : Type 0 where
    pub x_min : IsPrinted f t.x_min
    pub x_max : IsPrinted f t.x_max
    pub y_min : IsPrinted f t.y_min
    pub y_max : IsPrinted f t.y_max
    pub count_fits : t.num_points < size_mod

  -- What comes back: each number as it was printed and read.
  abbrev pub rounded_task : Task Double → Task Double
  rounded_task t = record {
    x_min = rounded t.x_min;
    x_max = rounded t.x_max;
    y_min = rounded t.y_min;
    y_max = rounded t.y_max;
    num_points = t.num_points;
  }

  abbrev pub task_text : Task Double → Bytes
  task_text t =
      codes "TASK:"
      ++ (show t.x_min
          ++ b':'
            ∷ (show t.x_max
                ++ b':' ∷ (show t.y_min ++ b':' ∷ (show t.y_max ++ b':' ∷ decimal t.num_points))))

  scan_field-show :
      (x : Double) (rest : Bytes)
      → IsPrinted f x
      → scan_field f (show x ++ b':' ∷ rest) ≡ some (rounded x, rest)
  unfolding scan_field colon
  scan_field-show x rest h = rw (h.reads_back rest)

  no_null-field :
      (x : Double) (rest : Bytes)
      → IsPrinted f x
      → All (λ c. (c == 0) ≡ false) rest
      → All (λ c. (c == 0) ≡ false) (show x ++ b':' ∷ rest)
  no_null-field x rest h k =
      All-append (λ c. (c == 0) ≡ false) (show x) (b':' ∷ rest) h.no_null (refl, k)

  length-field :
      (x : Double) (rest : Bytes)
      → IsPrinted f x
      → length (show x ++ b':' ∷ rest) ≤ 401 + length rest
  length-field x rest h = omega (arith, length-append (show x) (b':' ∷ rest), h.short)

  pub task_text-no_null :
      (t : Task Double) → IsSendable t → All (λ c. (c == 0) ≡ false) (task_text t)
  task_text-no_null t h = (
    refl,
    (
      refl,
      (
        refl,
        (
          refl,
          (
            refl,
            no_null-field _ _ h.x_min (
                no_null-field _ _ h.x_max (
                  no_null-field _ _ h.y_min
                    (no_null-field _ _ h.y_max (decimal-no_null t.num_points)))),
          ),
        ),
      ),
    ),
  )

  pub task_text_short : (t : Task Double) → IsSendable t → length (task_text t) < 4095
  task_text_short t h =
      let n = decimal t.num_points in
      let upper = show t.y_max ++ b':' ∷ n in
      let right = show t.y_min ++ b':' ∷ upper in
      let left = show t.x_max ++ b':' ∷ right in
      omega (
        arith,
        length-field t.y_max n h.y_max,
        length-field t.y_min upper h.y_min,
        length-field t.x_max right h.x_max,
        length-field t.x_min left h.x_min,
        length-decimal t.num_points h.count_fits,
      )

  pub serialize_task_lem :
      (t : Task Double) → IsSendable t → serialize_task f 4096 t ≡ some (task_text t)
  unfolding serialize_task
  serialize_task_lem t h =
      let fits : leb 4096 (length (task_text t)) ≡ false = ground (arith, task_text_short t h) in
      rw fits

  pub deserialize_task-text :
      (t : Task Double) → IsSendable t → deserialize_task f (task_text t) ≡ some (rounded_task t)
  unfolding deserialize_task starts_with
  deserialize_task-text t h = rw (
    scan_field-show t.x_min _ h.x_min,
    scan_field-show t.x_max _ h.x_max,
    scan_field-show t.y_min _ h.y_min,
    scan_field-show t.y_max _ h.y_max,
    scan_size-decimal_end t.num_points h.count_fits,
  )

  pub record IsReturnable (r : Result Double) : Type 0 where
    pub integral_value : IsPrinted f r.integral_value
    pub points_inside : r.points_inside < size_mod
    pub total_points : r.total_points < size_mod

  abbrev pub rounded_result : Result Double → Result Double
  rounded_result r = record r { integral_value = rounded r.integral_value }

  abbrev pub result_text : Result Double → Bytes
  result_text r =
      codes "RESULT:"
      ++ (show r.integral_value
          ++ b':' ∷ (decimal r.points_inside ++ b':' ∷ decimal r.total_points))

  pub result_text-no_null :
      (r : Result Double) → IsReturnable r → All (λ c. (c == 0) ≡ false) (result_text r)
  result_text-no_null r h = (
    refl,
    (
      refl,
      (
        refl,
        (
          refl,
          (
            refl,
            (
              refl,
              (
                refl,
                no_null-field _ _ h.integral_value (
                    All-append (λ c. (c == 0) ≡ false) (decimal r.points_inside)
                      (b':' ∷ decimal r.total_points) (decimal-no_null r.points_inside)
                      (refl, decimal-no_null r.total_points)),
              ),
            ),
          ),
        ),
      ),
    ),
  )

  pub result_text_short : (r : Result Double) → IsReturnable r → length (result_text r) < 4095
  result_text_short r h =
      let counts = decimal r.points_inside ++ b':' ∷ decimal r.total_points in
      omega (
        arith,
        length-field r.integral_value counts h.integral_value,
        length-append (decimal r.points_inside) (b':' ∷ decimal r.total_points),
        length-decimal r.points_inside h.points_inside,
        length-decimal r.total_points h.total_points,
      )

  pub serialize_result_lem :
      (r : Result Double) → IsReturnable r → serialize_result f 4096 r ≡ some (result_text r)
  unfolding serialize_result
  serialize_result_lem r h =
      let fits : leb 4096 (length (result_text r)) ≡ false =
        ground (arith, result_text_short r h) in
      rw fits

  pub deserialize_result-text :
      (r : Result Double)
      → IsReturnable r
      → deserialize_result f (result_text r) ≡ some (rounded_result r)
  unfolding deserialize_result starts_with colon
  deserialize_result-text r h = rw (
    scan_field-show r.integral_value _ h.integral_value,
    scan_size-decimal r.points_inside (b':' ∷ decimal r.total_points) h.points_inside refl,
    scan_size-decimal_end r.total_points h.total_points,
  )

  -- A task whose numbers are printed as documented fits the buffer, and is read back with each number
  -- as it was printed and read, and the count of points exactly.
  pub deserialize_task-serialize_task :
      (t : Task Double)
      → IsSendable t
      → (text : Bytes) × (serialize_task f 4096 t ≡ some text)
        × (deserialize_task f text ≡ some (rounded_task t))
  deserialize_task-serialize_task t h =
      (task_text t, serialize_task_lem t h, deserialize_task-text t h)

  -- A result whose integral is printed as documented and whose counts fit size_t fits the buffer, and
  -- is read back with the integral as it was printed and read, and both counts exactly.
  pub deserialize_result-serialize_result :
      (r : Result Double)
      → IsReturnable r
      → (text : Bytes) × (serialize_result f 4096 r ≡ some text)
        × (deserialize_result f text ≡ some (rounded_result r))
  deserialize_result-serialize_result r h =
      (result_text r, serialize_result_lem r h, deserialize_result-text r h)
