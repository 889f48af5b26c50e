-- ===== src/Parser/Tables.antt =====
-- The tables of the generated parser (path/parser/grammar.go).
use sqljson.Prelude.{ℕ, zero, suc, List, [], ◌∷◌}

-- The entry of a table; the tables are never left, and 0 stands outside them.
unfoldable pub entry : List ℕ → ℕ → ℕ
entry [] n = 0
entry (x ∷ xs) zero = x
entry (x ∷ xs) (suc n) = entry xs n

-- pathAct
unfoldable pub path_act : List ℕ
path_act =
    160 ∷ 146 ∷ 65 ∷ 111 ∷ 154 ∷ 6 ∷ 137 ∷ 180 ∷ 133 ∷ 7 ∷ 134 ∷ 132 ∷ 49 ∷ 50 ∷ 52 ∷ 43 ∷ 47 ∷ 130
    ∷ 168 ∷ 48 ∷ 44 ∷ 46 ∷ 177 ∷ 175 ∷ 30 ∷ 31 ∷ 32 ∷ 33 ∷ 34 ∷ 174 ∷ 56 ∷ 141 ∷ 173 ∷ 59 ∷ 60 ∷ 61
    ∷ 62 ∷ 63 ∷ 42 ∷ 41 ∷ 172 ∷ 171 ∷ 167 ∷ 37 ∷ 39 ∷ 35 ∷ 36 ∷ 40 ∷ 38 ∷ 150 ∷ 112 ∷ 64 ∷ 66 ∷ 28
    ∷ 49 ∷ 29 ∷ 143 ∷ 129 ∷ 117 ∷ 128 ∷ 127 ∷ 115 ∷ 126 ∷ 125 ∷ 116 ∷ 94 ∷ 95 ∷ 96 ∷ 97 ∷ 98 ∷ 99
    ∷ 100 ∷ 92 ∷ 93 ∷ 42 ∷ 41 ∷ 30 ∷ 31 ∷ 32 ∷ 33 ∷ 34 ∷ 163 ∷ 121 ∷ 114 ∷ 176 ∷ 124 ∷ 79 ∷ 101
    ∷ 102 ∷ 103 ∷ 104 ∷ 105 ∷ 106 ∷ 107 ∷ 80 ∷ 81 ∷ 82 ∷ 83 ∷ 84 ∷ 85 ∷ 86 ∷ 73 ∷ 87 ∷ 88 ∷ 72 ∷ 71
    ∷ 89 ∷ 90 ∷ 91 ∷ 74 ∷ 75 ∷ 76 ∷ 77 ∷ 15 ∷ 123 ∷ 68 ∷ 147 ∷ 140 ∷ 131 ∷ 57 ∷ 122 ∷ 138 ∷ 32 ∷ 33
    ∷ 34 ∷ 136 ∷ 41 ∷ 108 ∷ 42 ∷ 41 ∷ 42 ∷ 41 ∷ 157 ∷ 158 ∷ 159 ∷ 55 ∷ 112 ∷ 164 ∷ 165 ∷ 21 ∷ 22
    ∷ 23 ∷ 3 ∷ 4 ∷ 15 ∷ 161 ∷ 20 ∷ 24 ∷ 25 ∷ 26 ∷ 119 ∷ 170 ∷ 13 ∷ 120 ∷ 148 ∷ 149 ∷ 21 ∷ 22 ∷ 23
    ∷ 162 ∷ 169 ∷ 54 ∷ 19 ∷ 20 ∷ 24 ∷ 25 ∷ 26 ∷ 21 ∷ 22 ∷ 23 ∷ 178 ∷ 139 ∷ 156 ∷ 113 ∷ 20 ∷ 24 ∷ 25
    ∷ 26 ∷ 179 ∷ 19 ∷ 47 ∷ 42 ∷ 41 ∷ 153 ∷ 44 ∷ 46 ∷ 10 ∷ 11 ∷ 135 ∷ 166 ∷ 19 ∷ 142 ∷ 9 ∷ 12 ∷ 17
    ∷ 18 ∷ 37 ∷ 39 ∷ 35 ∷ 36 ∷ 40 ∷ 38 ∷ 58 ∷ 10 ∷ 11 ∷ 109 ∷ 28 ∷ 53 ∷ 29 ∷ 51 ∷ 78 ∷ 17 ∷ 18 ∷ 2
    ∷ 10 ∷ 11 ∷ 70 ∷ 27 ∷ 110 ∷ 144 ∷ 51 ∷ 145 ∷ 17 ∷ 18 ∷ 30 ∷ 31 ∷ 32 ∷ 33 ∷ 34 ∷ 30 ∷ 31 ∷ 32
    ∷ 33 ∷ 34 ∷ 8 ∷ 155 ∷ 30 ∷ 31 ∷ 32 ∷ 33 ∷ 34 ∷ 151 ∷ 152 ∷ 5 ∷ 118 ∷ 67 ∷ 69 ∷ 45 ∷ 14 ∷ 16 ∷ 1
    ∷ []

unfoldable pub act_at : ℕ → ℕ
unfolding entry path_act
act_at n = entry path_act n

-- pathPact, each entry plus 1000
unfoldable pub path_pact : List ℕ
path_pact =
    1116 ∷ 0 ∷ 1134 ∷ 0 ∷ 0 ∷ 0 ∷ 1177 ∷ 1165 ∷ 953 ∷ 1134 ∷ 1162 ∷ 1162 ∷ 0 ∷ 1103 ∷ 0 ∷ 1077 ∷ 0
    ∷ 0 ∷ 0 ∷ 0 ∷ 0 ∷ 0 ∷ 0 ∷ 0 ∷ 0 ∷ 0 ∷ 0 ∷ 1162 ∷ 1089 ∷ 1190 ∷ 1162 ∷ 1162 ∷ 1162 ∷ 1162 ∷ 1162
    ∷ 0 ∷ 0 ∷ 0 ∷ 0 ∷ 0 ∷ 0 ∷ 1134 ∷ 1134 ∷ 0 ∷ 1061 ∷ 0 ∷ 1069 ∷ 1151 ∷ 1114 ∷ 1024 ∷ 0 ∷ 1134 ∷ 0
    ∷ 0 ∷ 1134 ∷ 1162 ∷ 1172 ∷ 1138 ∷ 1050 ∷ 1068 ∷ 1068 ∷ 0 ∷ 0 ∷ 0 ∷ 0 ∷ 1177 ∷ 1109 ∷ 0 ∷ 0 ∷ 0
    ∷ 1062 ∷ 1056 ∷ 1027 ∷ 1005 ∷ 1004 ∷ 1002 ∷ 1001 ∷ 999 ∷ 0 ∷ 952 ∷ 0 ∷ 0 ∷ 0 ∷ 0 ∷ 0 ∷ 0 ∷ 0 ∷ 0
    ∷ 0 ∷ 0 ∷ 0 ∷ 0 ∷ 0 ∷ 0 ∷ 0 ∷ 0 ∷ 0 ∷ 0 ∷ 0 ∷ 0 ∷ 0 ∷ 0 ∷ 0 ∷ 0 ∷ 0 ∷ 0 ∷ 0 ∷ 0 ∷ 1134 ∷ 947
    ∷ 946 ∷ 0 ∷ 1184 ∷ 1117 ∷ 953 ∷ 1112 ∷ 1058 ∷ 972 ∷ 0 ∷ 0 ∷ 0 ∷ 1179 ∷ 997 ∷ 1102 ∷ 990 ∷ 1171
    ∷ 1158 ∷ 1158 ∷ 1158 ∷ 1158 ∷ 1131 ∷ 1022 ∷ 0 ∷ 1162 ∷ 0 ∷ 1162 ∷ 1180 ∷ 0 ∷ 0 ∷ 953 ∷ 0 ∷ 0 ∷ 0
    ∷ 0 ∷ 983 ∷ 956 ∷ 0 ∷ 0 ∷ 1146 ∷ 1137 ∷ 0 ∷ 982 ∷ 0 ∷ 0 ∷ 981 ∷ 0 ∷ 0 ∷ 973 ∷ 970 ∷ 964 ∷ 1018
    ∷ 0 ∷ 0 ∷ 0 ∷ 0 ∷ 1172 ∷ 0 ∷ 0 ∷ 1102 ∷ 0 ∷ 0 ∷ 0 ∷ 0 ∷ 0 ∷ 0 ∷ 0 ∷ 0 ∷ 1131 ∷ 0 ∷ 941 ∷ 0 ∷ []

unfoldable pub pact_at : ℕ → ℕ
unfolding entry path_pact
pact_at n = entry path_pact n

-- pathPgo
unfoldable pub path_pgo : List ℕ
path_pgo =
    0 ∷ 250 ∷ 249 ∷ 248 ∷ 2 ∷ 247 ∷ 246 ∷ 6 ∷ 245 ∷ 9 ∷ 193 ∷ 3 ∷ 244 ∷ 243 ∷ 242 ∷ 241 ∷ 1 ∷ 235
    ∷ 4 ∷ 234 ∷ 221 ∷ 219 ∷ 218 ∷ 217 ∷ 216 ∷ 213 ∷ 210 ∷ 0 ∷ []

unfoldable pub pgo_at : ℕ → ℕ
unfolding entry path_pgo
pgo_at n = entry path_pgo n

-- pathR1
unfoldable pub path_r1 : List ℕ
path_r1 =
    0 ∷ 1 ∷ 13 ∷ 13 ∷ 25 ∷ 25 ∷ 25 ∷ 2 ∷ 2 ∷ 2 ∷ 2 ∷ 2 ∷ 2 ∷ 2 ∷ 23 ∷ 23 ∷ 23 ∷ 23 ∷ 23 ∷ 23 ∷ 10
    ∷ 10 ∷ 9 ∷ 9 ∷ 9 ∷ 9 ∷ 9 ∷ 9 ∷ 9 ∷ 9 ∷ 9 ∷ 12 ∷ 12 ∷ 3 ∷ 3 ∷ 3 ∷ 3 ∷ 19 ∷ 19 ∷ 19 ∷ 19 ∷ 4 ∷ 4
    ∷ 4 ∷ 4 ∷ 4 ∷ 4 ∷ 4 ∷ 4 ∷ 4 ∷ 11 ∷ 11 ∷ 22 ∷ 22 ∷ 5 ∷ 5 ∷ 27 ∷ 27 ∷ 6 ∷ 6 ∷ 6 ∷ 7 ∷ 7 ∷ 7 ∷ 7
    ∷ 7 ∷ 7 ∷ 7 ∷ 7 ∷ 7 ∷ 7 ∷ 7 ∷ 7 ∷ 7 ∷ 16 ∷ 16 ∷ 16 ∷ 20 ∷ 20 ∷ 21 ∷ 21 ∷ 17 ∷ 18 ∷ 18 ∷ 14 ∷ 15
    ∷ 15 ∷ 8 ∷ 26 ∷ 26 ∷ 26 ∷ 26 ∷ 26 ∷ 26 ∷ 26 ∷ 26 ∷ 26 ∷ 26 ∷ 26 ∷ 26 ∷ 26 ∷ 26 ∷ 26 ∷ 26 ∷ 26
    ∷ 26 ∷ 26 ∷ 26 ∷ 26 ∷ 26 ∷ 26 ∷ 26 ∷ 26 ∷ 26 ∷ 26 ∷ 26 ∷ 26 ∷ 26 ∷ 26 ∷ 26 ∷ 26 ∷ 26 ∷ 26 ∷ 24
    ∷ 24 ∷ 24 ∷ 24 ∷ 24 ∷ 24 ∷ 24 ∷ 24 ∷ 24 ∷ 24 ∷ 24 ∷ 24 ∷ []

unfoldable pub r1_at : ℕ → ℕ
unfolding entry path_r1
r1_at n = entry path_r1 n

-- pathR2
unfoldable pub path_r2 : List ℕ
path_r2 =
    0 ∷ 2 ∷ 1 ∷ 1 ∷ 1 ∷ 1 ∷ 0 ∷ 1 ∷ 1 ∷ 1 ∷ 1 ∷ 1 ∷ 1 ∷ 1 ∷ 1 ∷ 1 ∷ 1 ∷ 1 ∷ 1 ∷ 1 ∷ 3 ∷ 4 ∷ 1 ∷ 3
    ∷ 3 ∷ 3 ∷ 2 ∷ 5 ∷ 4 ∷ 3 ∷ 5 ∷ 1 ∷ 1 ∷ 1 ∷ 1 ∷ 1 ∷ 1 ∷ 1 ∷ 4 ∷ 4 ∷ 2 ∷ 1 ∷ 3 ∷ 2 ∷ 2 ∷ 3 ∷ 3 ∷ 3
    ∷ 3 ∷ 3 ∷ 1 ∷ 3 ∷ 1 ∷ 3 ∷ 3 ∷ 3 ∷ 1 ∷ 1 ∷ 1 ∷ 4 ∷ 6 ∷ 2 ∷ 2 ∷ 1 ∷ 2 ∷ 4 ∷ 4 ∷ 5 ∷ 4 ∷ 5 ∷ 5 ∷ 5
    ∷ 5 ∷ 5 ∷ 1 ∷ 2 ∷ 2 ∷ 1 ∷ 3 ∷ 1 ∷ 0 ∷ 1 ∷ 1 ∷ 0 ∷ 1 ∷ 1 ∷ 0 ∷ 1 ∷ 1 ∷ 1 ∷ 1 ∷ 1 ∷ 1 ∷ 1 ∷ 1 ∷ 1
    ∷ 1 ∷ 1 ∷ 1 ∷ 1 ∷ 1 ∷ 1 ∷ 1 ∷ 1 ∷ 1 ∷ 1 ∷ 1 ∷ 1 ∷ 1 ∷ 1 ∷ 1 ∷ 1 ∷ 1 ∷ 1 ∷ 1 ∷ 1 ∷ 1 ∷ 1 ∷ 1 ∷ 1
    ∷ 1 ∷ 1 ∷ 1 ∷ 1 ∷ 1 ∷ 1 ∷ 1 ∷ 1 ∷ 1 ∷ 1 ∷ 1 ∷ 1 ∷ 1 ∷ 1 ∷ 1 ∷ []

unfoldable pub r2_at : ℕ → ℕ
unfolding entry path_r2
r2_at n = entry path_r2 n

-- pathChk, each entry plus 1000
unfoldable pub path_chk : List ℕ
path_chk =
    0 ∷ 999 ∷ 975 ∷ 1026 ∷ 1027 ∷ 987 ∷ 996 ∷ 991 ∷ 981 ∷ 1058 ∷ 1052 ∷ 1053 ∷ 990 ∷ 1018 ∷ 997
    ∷ 1010 ∷ 998 ∷ 1060 ∷ 1061 ∷ 1028 ∷ 1012 ∷ 1005 ∷ 1006 ∷ 1007 ∷ 1013 ∷ 1014 ∷ 1015 ∷ 977 ∷ 1029
    ∷ 1031 ∷ 1052 ∷ 1053 ∷ 1054 ∷ 1055 ∷ 1056 ∷ 1021 ∷ 1022 ∷ 1019 ∷ 1024 ∷ 1020 ∷ 1023 ∷ 1017
    ∷ 1016 ∷ 993 ∷ 1067 ∷ 995 ∷ 1068 ∷ 1063 ∷ 991 ∷ 996 ∷ 996 ∷ 1058 ∷ 996 ∷ 990 ∷ 1058 ∷ 1058 ∷ 996
    ∷ 1030 ∷ 1012 ∷ 996 ∷ 996 ∷ 996 ∷ 996 ∷ 996 ∷ 991 ∷ 996 ∷ 991 ∷ 992 ∷ 1054 ∷ 994 ∷ 976 ∷ 1044
    ∷ 1043 ∷ 1040 ∷ 1048 ∷ 1049 ∷ 1050 ∷ 1051 ∷ 974 ∷ 1025 ∷ 1033 ∷ 1034 ∷ 1035 ∷ 1036 ∷ 1037 ∷ 1038
    ∷ 1039 ∷ 1041 ∷ 1042 ∷ 1045 ∷ 1046 ∷ 1047 ∷ 1011 ∷ 1012 ∷ 1004 ∷ 1005 ∷ 1006 ∷ 1007 ∷ 1008
    ∷ 1009 ∷ 1010 ∷ 1026 ∷ 1027 ∷ 1028 ∷ 1029 ∷ 1030 ∷ 1031 ∷ 1032 ∷ 1058 ∷ 1054 ∷ 978 ∷ 989 ∷ 996
    ∷ 1059 ∷ 1059 ∷ 991 ∷ 991 ∷ 996 ∷ 988 ∷ 1012 ∷ 1015 ∷ 1032 ∷ 1058 ∷ 1058 ∷ 1058 ∷ 1058 ∷ 1058
    ∷ 1058 ∷ 1058 ∷ 1058 ∷ 1065 ∷ 991 ∷ 1064 ∷ 1062 ∷ 1064 ∷ 1004 ∷ 1008 ∷ 993 ∷ 993 ∷ 1059 ∷ 1059
    ∷ 1059 ∷ 1012 ∷ 1059 ∷ 979 ∷ 980 ∷ 984 ∷ 1014 ∷ 1052 ∷ 1053 ∷ 1059 ∷ 985 ∷ 986 ∷ 1012 ∷ 982
    ∷ 983 ∷ 1014 ∷ 982 ∷ 982 ∷ 982 ∷ 973 ∷ 1014 ∷ 1028 ∷ 1059 ∷ 989 ∷ 996 ∷ 1009 ∷ 1059 ∷ 1062
    ∷ 1014 ∷ 1014 ∷ 1059 ∷ 1059 ∷ 1059 ∷ 1059 ∷ 1059 ∷ 1066 ∷ 1004 ∷ 984 ∷ 973 ∷ 1066 ∷ []

unfoldable pub chk_at : ℕ → ℕ
unfolding entry path_chk
chk_at n = entry path_chk n

-- pathDef, each entry plus 2
unfoldable pub path_def : List ℕ
path_def =
    8 ∷ 0 ∷ 2 ∷ 6 ∷ 7 ∷ 3 ∷ 4 ∷ 5 ∷ 43 ∷ 2 ∷ 2 ∷ 2 ∷ 24 ∷ 2 ∷ 39 ∷ 2 ∷ 35 ∷ 36 ∷ 37 ∷ 38 ∷ 9 ∷ 10
    ∷ 11 ∷ 12 ∷ 13 ∷ 14 ∷ 15 ∷ 2 ∷ 2 ∷ 2 ∷ 2 ∷ 2 ∷ 2 ∷ 2 ∷ 2 ∷ 16 ∷ 17 ∷ 18 ∷ 19 ∷ 20 ∷ 21 ∷ 2 ∷ 2
    ∷ 42 ∷ 2 ∷ 65 ∷ 2 ∷ 2 ∷ 2 ∷ 2 ∷ 45 ∷ 2 ∷ 46 ∷ 28 ∷ 2 ∷ 2 ∷ 25 ∷ 2 ∷ 31 ∷ 47 ∷ 48 ∷ 49 ∷ 50 ∷ 51
    ∷ 26 ∷ 2 ∷ 27 ∷ 63 ∷ 64 ∷ 66 ∷ 2 ∷ 117 ∷ 116 ∷ 107 ∷ 121 ∷ 122 ∷ 123 ∷ 124 ∷ 89 ∷ 60 ∷ 0 ∷ 0 ∷ 0
    ∷ 0 ∷ 0 ∷ 0 ∷ 0 ∷ 0 ∷ 0 ∷ 0 ∷ 0 ∷ 0 ∷ 90 ∷ 91 ∷ 92 ∷ 93 ∷ 94 ∷ 95 ∷ 96 ∷ 97 ∷ 98 ∷ 99 ∷ 100
    ∷ 109 ∷ 110 ∷ 111 ∷ 112 ∷ 113 ∷ 2 ∷ 2 ∷ 2 ∷ 54 ∷ 52 ∷ 22 ∷ 44 ∷ 2 ∷ 2 ∷ 2 ∷ 30 ∷ 33 ∷ 34 ∷ 2 ∷ 2
    ∷ 82 ∷ 2 ∷ 88 ∷ 85 ∷ 85 ∷ 85 ∷ 85 ∷ 2 ∷ 2 ∷ 56 ∷ 2 ∷ 57 ∷ 2 ∷ 2 ∷ 41 ∷ 40 ∷ 2 ∷ 22 ∷ 23 ∷ 32
    ∷ 67 ∷ 2 ∷ 81 ∷ 79 ∷ 76 ∷ 2 ∷ 2 ∷ 70 ∷ 2 ∷ 87 ∷ 86 ∷ 2 ∷ 84 ∷ 83 ∷ 2 ∷ 2 ∷ 2 ∷ 2 ∷ 58 ∷ 59 ∷ 68
    ∷ 55 ∷ 53 ∷ 29 ∷ 69 ∷ 2 ∷ 77 ∷ 78 ∷ 71 ∷ 72 ∷ 73 ∷ 74 ∷ 75 ∷ 61 ∷ 2 ∷ 80 ∷ 2 ∷ 62 ∷ []

unfoldable pub def_at : ℕ → ℕ
unfolding entry path_def
def_at n = entry path_def n

-- pathTok1
unfoldable pub path_tok1 : List ℕ
path_tok1 =
    1 ∷ 3 ∷ 3 ∷ 3 ∷ 3 ∷ 3 ∷ 3 ∷ 3 ∷ 3 ∷ 3 ∷ 3 ∷ 3 ∷ 3 ∷ 3 ∷ 3 ∷ 3 ∷ 3 ∷ 3 ∷ 3 ∷ 3 ∷ 3 ∷ 3 ∷ 3 ∷ 3
    ∷ 3 ∷ 3 ∷ 3 ∷ 3 ∷ 3 ∷ 3 ∷ 3 ∷ 3 ∷ 3 ∷ 3 ∷ 3 ∷ 3 ∷ 60 ∷ 56 ∷ 3 ∷ 3 ∷ 58 ∷ 59 ∷ 54 ∷ 52 ∷ 62 ∷ 53
    ∷ 67 ∷ 55 ∷ 3 ∷ 3 ∷ 3 ∷ 3 ∷ 3 ∷ 3 ∷ 3 ∷ 3 ∷ 3 ∷ 3 ∷ 3 ∷ 3 ∷ 3 ∷ 3 ∷ 3 ∷ 68 ∷ 61 ∷ 3 ∷ 3 ∷ 3 ∷ 3
    ∷ 3 ∷ 3 ∷ 3 ∷ 3 ∷ 3 ∷ 3 ∷ 3 ∷ 3 ∷ 3 ∷ 3 ∷ 3 ∷ 3 ∷ 3 ∷ 3 ∷ 3 ∷ 3 ∷ 3 ∷ 3 ∷ 3 ∷ 3 ∷ 3 ∷ 3 ∷ 63 ∷ 3
    ∷ 64 ∷ 3 ∷ 3 ∷ 3 ∷ 3 ∷ 3 ∷ 3 ∷ 3 ∷ 3 ∷ 3 ∷ 3 ∷ 3 ∷ 3 ∷ 3 ∷ 3 ∷ 3 ∷ 3 ∷ 3 ∷ 3 ∷ 3 ∷ 3 ∷ 3 ∷ 3 ∷ 3
    ∷ 3 ∷ 3 ∷ 3 ∷ 3 ∷ 3 ∷ 3 ∷ 65 ∷ 3 ∷ 66 ∷ []

unfoldable pub tok1_at : ℕ → ℕ
unfolding entry path_tok1
tok1_at n = entry path_tok1 n

-- pathTok2
unfoldable pub path_tok2 : List ℕ
path_tok2 =
    2 ∷ 3 ∷ 4 ∷ 5 ∷ 6 ∷ 7 ∷ 8 ∷ 9 ∷ 10 ∷ 11 ∷ 12 ∷ 13 ∷ 14 ∷ 15 ∷ 16 ∷ 17 ∷ 18 ∷ 19 ∷ 20 ∷ 21 ∷ 22
    ∷ 23 ∷ 24 ∷ 25 ∷ 26 ∷ 27 ∷ 28 ∷ 29 ∷ 30 ∷ 31 ∷ 32 ∷ 33 ∷ 34 ∷ 35 ∷ 36 ∷ 37 ∷ 38 ∷ 39 ∷ 40 ∷ 41
    ∷ 42 ∷ 43 ∷ 44 ∷ 45 ∷ 46 ∷ 47 ∷ 48 ∷ 49 ∷ 50 ∷ 51 ∷ 57 ∷ []

unfoldable pub tok2_at : ℕ → ℕ
unfolding entry path_tok2
tok2_at n = entry path_tok2 n

-- pathExca: for a state, the token with an action of its own, and the two actions, each plus 1.
unfoldable pub path_exca : List (ℕ × ℕ × ℕ × ℕ)
path_exca =
    (1, 1, 0, 1)
    ∷ (80, 58, 124, 100)
    ∷ (81, 58, 125, 101)
    ∷ (82, 58, 126, 102)
    ∷ (83, 58, 127, 103)
    ∷ (84, 58, 128, 104)
    ∷ (85, 58, 129, 105)
    ∷ (86, 58, 130, 107)
    ∷ (87, 58, 131, 113)
    ∷ (88, 58, 132, 114)
    ∷ (89, 58, 133, 117)
    ∷ (90, 58, 134, 118)
    ∷ (91, 58, 135, 119)
    ∷ []
