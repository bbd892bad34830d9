-- ===== src/Integration/Messages.antt =====
-- task_8/homework/utils/src/serializer.c and the types of utils/include/common.h: tasks and results
-- as text.
use sem.Base.{ℕ, Option, none, some, [], ◌∷◌, ◌++◌, leb, ◌==◌, if◌then◌else◌, length, drop}
use sem.Text.{Bytes, codes, starts_with}
use sem.Numbers.{decimal, scan_size}
use sem.Integration.Floats.{Floats}
use sem.Fallible.{◌>>=◌}

pub record Task (D : Type 0) : Type 0 where
  pub x_min : D
  pub x_max : D
  pub y_min : D
  pub y_max : D
  pub num_points : ℕ

pub record Result (D : Type 0) : Type 0 where
  pub integral_value : D
  pub points_inside : ℕ
  pub total_points : ℕ

-- What snprintf leaves where the text fits the buffer, and none where the C code returns -1.
abbrev pub fitting : ℕ → Bytes → Option Bytes
fitting buffer_size text = if leb buffer_size (length text) then none else some text

-- A colon of a format of sscanf.
unfoldable pub colon : Bytes → Option Bytes
colon [] = none
colon (c ∷ s) = if c == b':' then some s else none

module _ (f : Floats) where
  open f use {Double, show, scan}

  unfoldable pub serialize_task : ℕ → Task Double → Option Bytes
  serialize_task buffer_size t = fitting buffer_size (
      codes "TASK:"
      ++ (show t.x_min
          ++ b':'
            ∷ (show t.x_max
                ++ b':' ∷ (show t.y_min ++ b':' ∷ (show t.y_max ++ b':' ∷ decimal t.num_points)))))

  -- %lf: and what follows
  unfoldable pub scan_field : Bytes → Option (Double × Bytes)
  scan_field s = do (x, after) ← scan s; rest ← colon after; some (x, rest)

  unfoldable pub deserialize_task : Bytes → Option (Task Double)
  deserialize_task buffer =
      if starts_with (codes "TASK:") buffer
      then (do
        (x_min, a) ← scan_field (drop 5 buffer)
        (x_max, b) ← scan_field a
        (y_min, c) ← scan_field b
        (y_max, d) ← scan_field c
        (num_points, e) ← scan_size d
        some (record {
          x_min = x_min;
          x_max = x_max;
          y_min = y_min;
          y_max = y_max;
          num_points = num_points;
        }))
      else none

  unfoldable pub serialize_result : ℕ → Result Double → Option Bytes
  serialize_result buffer_size r = fitting buffer_size (
      codes "RESULT:"
      ++ (show r.integral_value
          ++ b':' ∷ (decimal r.points_inside ++ b':' ∷ decimal r.total_points)))

  unfoldable pub deserialize_result : Bytes → Option (Result Double)
  deserialize_result buffer =
      if starts_with (codes "RESULT:") buffer
      then (do
        (integral_value, a) ← scan_field (drop 7 buffer)
        (points_inside, b) ← scan_size a
        c ← colon b
        (total_points, d) ← scan_size c
        some (record {
          integral_value = integral_value;
          points_inside = points_inside;
          total_points = total_points;
        }))
      else none
