-- ===== src/Tests/ShortSpec.antt =====
-- The specification test_resources/short.mm0, byte by byte.
use second_opinion.Prelude.{ℕ, List, [], ◌∷◌, ◌++◌}

abbrev line_0 : List ℕ
line_0 =
    100 ∷ 101 ∷ 108 ∷ 105 ∷ 109 ∷ 105 ∷ 116 ∷ 101 ∷ 114 ∷ 32 ∷ 36 ∷ 32 ∷ 40 ∷ 32 ∷ 41 ∷ 32 ∷ 126
    ∷ 32 ∷ 123 ∷ 32 ∷ 125 ∷ 32 ∷ 44 ∷ 32 ∷ 36 ∷ 59 ∷ 10 ∷ 45 ∷ 45 ∷ 124 ∷ 32 ∷ 87 ∷ 101 ∷ 108 ∷ 108
    ∷ 32 ∷ 102 ∷ 111 ∷ 114 ∷ 109 ∷ 101 ∷ 100 ∷ 32 ∷ 102 ∷ 111 ∷ 114 ∷ 109 ∷ 117 ∷ 108 ∷ 97 ∷ 115
    ∷ 44 ∷ 32 ∷ 111 ∷ 114 ∷ 32 ∷ 112 ∷ 114 ∷ 111 ∷ 112 ∷ 111 ∷ 115 ∷ 105 ∷ 116 ∷ 105 ∷ 111 ∷ 110
    ∷ 115 ∷ 32 ∷ 45 ∷ 32 ∷ 116 ∷ 114 ∷ 117 ∷ 101 ∷ 32 ∷ 111 ∷ 114 ∷ 32 ∷ 102 ∷ 97 ∷ 108 ∷ 115 ∷ 101
    ∷ 46 ∷ 10 ∷ 115 ∷ 116 ∷ 114 ∷ 105 ∷ 99 ∷ 116 ∷ 32 ∷ 112 ∷ 114 ∷ 111 ∷ 118 ∷ 97 ∷ 98 ∷ 108 ∷ 101
    ∷ 32 ∷ 115 ∷ 111 ∷ 114 ∷ 116 ∷ 32 ∷ 119 ∷ 102 ∷ 102 ∷ 59 ∷ 10 ∷ 45 ∷ 45 ∷ 124 ∷ 32 ∷ 73 ∷ 109
    ∷ 112 ∷ 108 ∷ []

abbrev line_1 : List ℕ
line_1 =
    105 ∷ 99 ∷ 97 ∷ 116 ∷ 105 ∷ 111 ∷ 110 ∷ 58 ∷ 32 ∷ 105 ∷ 102 ∷ 32 ∷ 112 ∷ 44 ∷ 32 ∷ 116 ∷ 104
    ∷ 101 ∷ 110 ∷ 32 ∷ 113 ∷ 46 ∷ 10 ∷ 116 ∷ 101 ∷ 114 ∷ 109 ∷ 32 ∷ 105 ∷ 109 ∷ 32 ∷ 40 ∷ 112 ∷ 32
    ∷ 113 ∷ 58 ∷ 32 ∷ 119 ∷ 102 ∷ 102 ∷ 41 ∷ 58 ∷ 32 ∷ 119 ∷ 102 ∷ 102 ∷ 59 ∷ 32 ∷ 105 ∷ 110 ∷ 102
    ∷ 105 ∷ 120 ∷ 114 ∷ 32 ∷ 105 ∷ 109 ∷ 58 ∷ 32 ∷ 36 ∷ 45 ∷ 62 ∷ 36 ∷ 32 ∷ 112 ∷ 114 ∷ 101 ∷ 99
    ∷ 32 ∷ 50 ∷ 53 ∷ 59 ∷ 10 ∷ 45 ∷ 45 ∷ 124 ∷ 32 ∷ 78 ∷ 101 ∷ 103 ∷ 97 ∷ 116 ∷ 105 ∷ 111 ∷ 110 ∷ 58
    ∷ 32 ∷ 112 ∷ 32 ∷ 105 ∷ 115 ∷ 32 ∷ 102 ∷ 97 ∷ 108 ∷ 115 ∷ 101 ∷ 46 ∷ 10 ∷ 116 ∷ 101 ∷ 114 ∷ 109
    ∷ 32 ∷ 110 ∷ 111 ∷ 116 ∷ 32 ∷ 40 ∷ 112 ∷ 58 ∷ 32 ∷ 119 ∷ 102 ∷ 102 ∷ 41 ∷ 58 ∷ 32 ∷ 119 ∷ 102
    ∷ []

abbrev line_2 : List ℕ
line_2 =
    102 ∷ 59 ∷ 32 ∷ 112 ∷ 114 ∷ 101 ∷ 102 ∷ 105 ∷ 120 ∷ 32 ∷ 110 ∷ 111 ∷ 116 ∷ 58 ∷ 32 ∷ 36 ∷ 126
    ∷ 36 ∷ 32 ∷ 112 ∷ 114 ∷ 101 ∷ 99 ∷ 32 ∷ 52 ∷ 49 ∷ 59 ∷ 10 ∷ 10 ∷ 45 ∷ 45 ∷ 124 ∷ 32 ∷ 65 ∷ 120
    ∷ 105 ∷ 111 ∷ 109 ∷ 32 ∷ 49 ∷ 32 ∷ 111 ∷ 102 ∷ 32 ∷ 76 ∷ 117 ∷ 107 ∷ 97 ∷ 115 ∷ 105 ∷ 101 ∷ 119
    ∷ 105 ∷ 99 ∷ 122 ∷ 39 ∷ 32 ∷ 97 ∷ 120 ∷ 105 ∷ 111 ∷ 109 ∷ 115 ∷ 32 ∷ 102 ∷ 111 ∷ 114 ∷ 32 ∷ 99
    ∷ 108 ∷ 97 ∷ 115 ∷ 115 ∷ 105 ∷ 99 ∷ 97 ∷ 108 ∷ 32 ∷ 112 ∷ 114 ∷ 111 ∷ 112 ∷ 111 ∷ 115 ∷ 105
    ∷ 116 ∷ 105 ∷ 111 ∷ 110 ∷ 97 ∷ 108 ∷ 32 ∷ 108 ∷ 111 ∷ 103 ∷ 105 ∷ 99 ∷ 46 ∷ 10 ∷ 97 ∷ 120 ∷ 105
    ∷ 111 ∷ 109 ∷ 32 ∷ 97 ∷ 120 ∷ 95 ∷ 49 ∷ 32 ∷ 40 ∷ 97 ∷ 32 ∷ 98 ∷ 58 ∷ 32 ∷ 119 ∷ 102 ∷ 102 ∷ 41
    ∷ []

abbrev line_3 : List ℕ
line_3 =
    58 ∷ 32 ∷ 36 ∷ 32 ∷ 97 ∷ 32 ∷ 45 ∷ 62 ∷ 32 ∷ 98 ∷ 32 ∷ 45 ∷ 62 ∷ 32 ∷ 97 ∷ 32 ∷ 36 ∷ 59 ∷ 10
    ∷ 45 ∷ 45 ∷ 124 ∷ 32 ∷ 65 ∷ 120 ∷ 105 ∷ 111 ∷ 109 ∷ 32 ∷ 50 ∷ 32 ∷ 111 ∷ 102 ∷ 32 ∷ 76 ∷ 117
    ∷ 107 ∷ 97 ∷ 115 ∷ 105 ∷ 101 ∷ 119 ∷ 105 ∷ 99 ∷ 122 ∷ 39 ∷ 32 ∷ 97 ∷ 120 ∷ 105 ∷ 111 ∷ 109 ∷ 115
    ∷ 32 ∷ 102 ∷ 111 ∷ 114 ∷ 32 ∷ 99 ∷ 108 ∷ 97 ∷ 115 ∷ 115 ∷ 105 ∷ 99 ∷ 97 ∷ 108 ∷ 32 ∷ 112 ∷ 114
    ∷ 111 ∷ 112 ∷ 111 ∷ 115 ∷ 105 ∷ 116 ∷ 105 ∷ 111 ∷ 110 ∷ 97 ∷ 108 ∷ 32 ∷ 108 ∷ 111 ∷ 103 ∷ 105
    ∷ 99 ∷ 46 ∷ 10 ∷ 97 ∷ 120 ∷ 105 ∷ 111 ∷ 109 ∷ 32 ∷ 97 ∷ 120 ∷ 95 ∷ 50 ∷ 32 ∷ 40 ∷ 97 ∷ 32 ∷ 98
    ∷ 32 ∷ 99 ∷ 58 ∷ 32 ∷ 119 ∷ 102 ∷ 102 ∷ 41 ∷ 58 ∷ 32 ∷ 36 ∷ 32 ∷ 40 ∷ 97 ∷ 32 ∷ 45 ∷ []

abbrev line_4 : List ℕ
line_4 =
    62 ∷ 32 ∷ 98 ∷ 32 ∷ 45 ∷ 62 ∷ 32 ∷ 99 ∷ 41 ∷ 32 ∷ 45 ∷ 62 ∷ 32 ∷ 40 ∷ 97 ∷ 32 ∷ 45 ∷ 62 ∷ 32
    ∷ 98 ∷ 41 ∷ 32 ∷ 45 ∷ 62 ∷ 32 ∷ 97 ∷ 32 ∷ 45 ∷ 62 ∷ 32 ∷ 99 ∷ 32 ∷ 36 ∷ 59 ∷ 10 ∷ 45 ∷ 45 ∷ 124
    ∷ 32 ∷ 65 ∷ 120 ∷ 105 ∷ 111 ∷ 109 ∷ 32 ∷ 51 ∷ 32 ∷ 111 ∷ 102 ∷ 32 ∷ 76 ∷ 117 ∷ 107 ∷ 97 ∷ 115
    ∷ 105 ∷ 101 ∷ 119 ∷ 105 ∷ 99 ∷ 122 ∷ 39 ∷ 32 ∷ 97 ∷ 120 ∷ 105 ∷ 111 ∷ 109 ∷ 115 ∷ 32 ∷ 102 ∷ 111
    ∷ 114 ∷ 32 ∷ 99 ∷ 108 ∷ 97 ∷ 115 ∷ 115 ∷ 105 ∷ 99 ∷ 97 ∷ 108 ∷ 32 ∷ 112 ∷ 114 ∷ 111 ∷ 112 ∷ 111
    ∷ 115 ∷ 105 ∷ 116 ∷ 105 ∷ 111 ∷ 110 ∷ 97 ∷ 108 ∷ 32 ∷ 108 ∷ 111 ∷ 103 ∷ 105 ∷ 99 ∷ 46 ∷ 10 ∷ 97
    ∷ 120 ∷ 105 ∷ 111 ∷ 109 ∷ 32 ∷ 97 ∷ 120 ∷ 95 ∷ 51 ∷ 32 ∷ 40 ∷ 97 ∷ 32 ∷ 98 ∷ []

abbrev line_5 : List ℕ
line_5 =
    58 ∷ 32 ∷ 119 ∷ 102 ∷ 102 ∷ 41 ∷ 58 ∷ 32 ∷ 36 ∷ 32 ∷ 40 ∷ 126 ∷ 97 ∷ 32 ∷ 45 ∷ 62 ∷ 32 ∷ 126
    ∷ 98 ∷ 41 ∷ 32 ∷ 45 ∷ 62 ∷ 32 ∷ 98 ∷ 32 ∷ 45 ∷ 62 ∷ 32 ∷ 97 ∷ 32 ∷ 36 ∷ 59 ∷ 10 ∷ 45 ∷ 45 ∷ 124
    ∷ 32 ∷ 77 ∷ 111 ∷ 100 ∷ 117 ∷ 115 ∷ 32 ∷ 112 ∷ 111 ∷ 110 ∷ 101 ∷ 110 ∷ 115 ∷ 58 ∷ 32 ∷ 102 ∷ 114
    ∷ 111 ∷ 109 ∷ 32 ∷ 96 ∷ 97 ∷ 32 ∷ 45 ∷ 62 ∷ 32 ∷ 98 ∷ 96 ∷ 32 ∷ 97 ∷ 110 ∷ 100 ∷ 32 ∷ 96 ∷ 97
    ∷ 96 ∷ 44 ∷ 32 ∷ 105 ∷ 110 ∷ 102 ∷ 101 ∷ 114 ∷ 32 ∷ 96 ∷ 98 ∷ 96 ∷ 46 ∷ 10 ∷ 97 ∷ 120 ∷ 105
    ∷ 111 ∷ 109 ∷ 32 ∷ 97 ∷ 120 ∷ 95 ∷ 109 ∷ 112 ∷ 32 ∷ 40 ∷ 97 ∷ 32 ∷ 98 ∷ 58 ∷ 32 ∷ 119 ∷ 102
    ∷ 102 ∷ 41 ∷ 58 ∷ 32 ∷ 36 ∷ 32 ∷ 97 ∷ 32 ∷ 45 ∷ 62 ∷ 32 ∷ 98 ∷ 32 ∷ 36 ∷ []

abbrev line_6 : List ℕ
line_6 = 32 ∷ 62 ∷ 32 ∷ 36 ∷ 32 ∷ 97 ∷ 32 ∷ 36 ∷ 32 ∷ 62 ∷ 32 ∷ 36 ∷ 32 ∷ 98 ∷ 32 ∷ 36 ∷ 59 ∷ []

abbrev pub short_mm0 : List ℕ
short_mm0 = line_0 ++ (line_1 ++ (line_2 ++ (line_3 ++ (line_4 ++ (line_5 ++ (line_6))))))
