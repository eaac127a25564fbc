-- ===== src/Tests/Vectors.antt =====
-- The vectors of vectors/test_vectors.txt against the generator, and its theorem at one of them.
use arc_protocol.Vectors.{max_payload}
use arc_protocol.Prelude.{◌≡◌, refl, arith, [], ◌∷◌, replicate}
use arc_protocol.Memory.{Bytes, done, load, read, write}
use arc_protocol.Crc.{crc_loop, crc_byte, crc_bits, crc_bit, crc16}
use arc_protocol.Frame.{frame_build, frame_fill, store_crc, store_payload}
use arc_protocol.Frame.Wire.{IsPacket, payload_ptr}
use arc_protocol.Cobs.{cobs_encode, encode_step, encode_loop, encode_finish, close_run}
use arc_protocol.Vectors.{
  payload_line, frame_line, encoded_line, emit, emit_vector, emit_built, emit_encoded, print_hex,
  vector_lines, emit_vector_prints,
}
use arc_protocol.Vectors.{empty_zero, heartbeat, small_command, payload_with_zeros}

abbrev frame : Bytes
frame = replicate 252 0

abbrev encoded : Bytes
encoded = replicate 254 0

empty_zero_vector :
    emit frame encoded empty_zero
    ≡ done (
        payload_line ([])
        ∷ frame_line (10 ∷ 0 ∷ 0 ∷ 0 ∷ 0 ∷ 0 ∷ 0 ∷ 0 ∷ 0 ∷ 247 ∷ 234 ∷ [])
        ∷ encoded_line (2 ∷ 10 ∷ 1 ∷ 1 ∷ 1 ∷ 1 ∷ 1 ∷ 1 ∷ 1 ∷ 3 ∷ 247 ∷ 234 ∷ 0 ∷ [])
        ∷ [])
unfolding emit_vector emit_built emit_encoded print_hex frame_build frame_fill store_crc
    store_payload crc_loop crc_byte crc_bits crc_bit crc16 cobs_encode encode_step encode_loop
    encode_finish close_run load read write
empty_zero_vector = refl

heartbeat_vector :
    emit frame encoded heartbeat
    ≡ done (
        payload_line ([])
        ∷ frame_line (10 ∷ 3 ∷ 2 ∷ 0 ∷ 1 ∷ 0 ∷ 42 ∷ 0 ∷ 1 ∷ 164 ∷ 11 ∷ [])
        ∷ encoded_line (4 ∷ 10 ∷ 3 ∷ 2 ∷ 2 ∷ 1 ∷ 2 ∷ 42 ∷ 4 ∷ 1 ∷ 164 ∷ 11 ∷ 0 ∷ [])
        ∷ [])
unfolding emit_vector emit_built emit_encoded print_hex frame_build frame_fill store_crc
    store_payload crc_loop crc_byte crc_bits crc_bit crc16 cobs_encode encode_step encode_loop
    encode_finish close_run load read write
heartbeat_vector = refl

small_command_vector :
    emit frame encoded small_command
    ≡ done (
        payload_line (16 ∷ 32 ∷ 48 ∷ [])
        ∷ frame_line (13 ∷ 1 ∷ 4 ∷ 1 ∷ 5 ∷ 18 ∷ 52 ∷ 1 ∷ 66 ∷ 16 ∷ 32 ∷ 48 ∷ 99 ∷ 215 ∷ [])
        ∷ encoded_line
            (15 ∷ 13 ∷ 1 ∷ 4 ∷ 1 ∷ 5 ∷ 18 ∷ 52 ∷ 1 ∷ 66 ∷ 16 ∷ 32 ∷ 48 ∷ 99 ∷ 215 ∷ 0 ∷ [])
        ∷ [])
unfolding emit_vector emit_built emit_encoded print_hex frame_build frame_fill store_crc
    store_payload crc_loop crc_byte crc_bits crc_bit crc16 cobs_encode encode_step encode_loop
    encode_finish close_run load read write
small_command_vector = refl

payload_with_zeros_vector :
    emit frame encoded payload_with_zeros
    ≡ done (
        payload_line (0 ∷ 255 ∷ 0 ∷ 170 ∷ 0 ∷ [])
        ∷ frame_line (15 ∷ 4 ∷ 1 ∷ 0 ∷ 7 ∷ 0 ∷ 100 ∷ 1 ∷ 1 ∷ 0 ∷ 255 ∷ 0 ∷ 170 ∷ 0 ∷ 238 ∷ 39 ∷ [])
        ∷ encoded_line
            (4 ∷ 15 ∷ 4 ∷ 1 ∷ 2 ∷ 7 ∷ 4 ∷ 100 ∷ 1 ∷ 1 ∷ 2 ∷ 255 ∷ 2 ∷ 170 ∷ 3 ∷ 238 ∷ 39 ∷ 0 ∷ [])
        ∷ [])
unfolding emit_vector emit_built emit_encoded print_hex frame_build frame_fill store_crc
    store_payload crc_loop crc_byte crc_bits crc_bit crc16 cobs_encode encode_step encode_loop
    encode_finish close_run load read write
payload_with_zeros_vector = refl

max_payload_vector :
    emit frame encoded max_payload
    ≡ done (
        payload_line (
          0 ∷ 1 ∷ 2 ∷ 3 ∷ 4 ∷ 5 ∷ 6 ∷ 7 ∷ 8 ∷ 9 ∷ 10 ∷ 11 ∷ 12 ∷ 13 ∷ 14 ∷ 15 ∷ 16 ∷ 17 ∷ 18 ∷ 19
          ∷ 20 ∷ 21 ∷ 22 ∷ 23 ∷ 24 ∷ 25 ∷ 26 ∷ 27 ∷ 28 ∷ 29 ∷ 30 ∷ 31 ∷ 32 ∷ 33 ∷ 34 ∷ 35 ∷ 36 ∷ 37
          ∷ 38 ∷ 39 ∷ 40 ∷ 41 ∷ 42 ∷ 43 ∷ 44 ∷ 45 ∷ 46 ∷ 47 ∷ 48 ∷ 49 ∷ 50 ∷ 51 ∷ 52 ∷ 53 ∷ 54 ∷ 55
          ∷ 56 ∷ 57 ∷ 58 ∷ 59 ∷ 60 ∷ 61 ∷ 62 ∷ 63 ∷ 64 ∷ 65 ∷ 66 ∷ 67 ∷ 68 ∷ 69 ∷ 70 ∷ 71 ∷ 72 ∷ 73
          ∷ 74 ∷ 75 ∷ 76 ∷ 77 ∷ 78 ∷ 79 ∷ 80 ∷ 81 ∷ 82 ∷ 83 ∷ 84 ∷ 85 ∷ 86 ∷ 87 ∷ 88 ∷ 89 ∷ 90 ∷ 91
          ∷ 92 ∷ 93 ∷ 94 ∷ 95 ∷ 96 ∷ 97 ∷ 98 ∷ 99 ∷ 100 ∷ 101 ∷ 102 ∷ 103 ∷ 104 ∷ 105 ∷ 106 ∷ 107
          ∷ 108 ∷ 109 ∷ 110 ∷ 111 ∷ 112 ∷ 113 ∷ 114 ∷ 115 ∷ 116 ∷ 117 ∷ 118 ∷ 119 ∷ 120 ∷ 121 ∷ 122
          ∷ 123 ∷ 124 ∷ 125 ∷ 126 ∷ 127 ∷ 128 ∷ 129 ∷ 130 ∷ 131 ∷ 132 ∷ 133 ∷ 134 ∷ 135 ∷ 136 ∷ 137
          ∷ 138 ∷ 139 ∷ 140 ∷ 141 ∷ 142 ∷ 143 ∷ 144 ∷ 145 ∷ 146 ∷ 147 ∷ 148 ∷ 149 ∷ 150 ∷ 151 ∷ 152
          ∷ 153 ∷ 154 ∷ 155 ∷ 156 ∷ 157 ∷ 158 ∷ 159 ∷ 160 ∷ 161 ∷ 162 ∷ 163 ∷ 164 ∷ 165 ∷ 166 ∷ 167
          ∷ 168 ∷ 169 ∷ 170 ∷ 171 ∷ 172 ∷ 173 ∷ 174 ∷ 175 ∷ 176 ∷ 177 ∷ 178 ∷ 179 ∷ 180 ∷ 181 ∷ 182
          ∷ 183 ∷ 184 ∷ 185 ∷ 186 ∷ 187 ∷ 188 ∷ 189 ∷ 190 ∷ 191 ∷ 192 ∷ 193 ∷ 194 ∷ 195 ∷ 196 ∷ 197
          ∷ 198 ∷ 199 ∷ 200 ∷ 201 ∷ 202 ∷ 203 ∷ 204 ∷ 205 ∷ 206 ∷ 207 ∷ 208 ∷ 209 ∷ 210 ∷ 211 ∷ 212
          ∷ 213 ∷ 214 ∷ 215 ∷ 216 ∷ 217 ∷ 218 ∷ 219 ∷ 220 ∷ 221 ∷ 222 ∷ 223 ∷ 224 ∷ 225 ∷ 226 ∷ 227
          ∷ 228 ∷ 229 ∷ 230 ∷ 231 ∷ 232 ∷ 233 ∷ 234 ∷ 235 ∷ 236 ∷ 237 ∷ 238 ∷ 239 ∷ 240 ∷ [])
        ∷ frame_line (
            251 ∷ 2 ∷ 1 ∷ 3 ∷ 255 ∷ 255 ∷ 255 ∷ 1 ∷ 255 ∷ 0 ∷ 1 ∷ 2 ∷ 3 ∷ 4 ∷ 5 ∷ 6 ∷ 7 ∷ 8 ∷ 9 ∷ 10
            ∷ 11 ∷ 12 ∷ 13 ∷ 14 ∷ 15 ∷ 16 ∷ 17 ∷ 18 ∷ 19 ∷ 20 ∷ 21 ∷ 22 ∷ 23 ∷ 24 ∷ 25 ∷ 26 ∷ 27
            ∷ 28 ∷ 29 ∷ 30 ∷ 31 ∷ 32 ∷ 33 ∷ 34 ∷ 35 ∷ 36 ∷ 37 ∷ 38 ∷ 39 ∷ 40 ∷ 41 ∷ 42 ∷ 43 ∷ 44
            ∷ 45 ∷ 46 ∷ 47 ∷ 48 ∷ 49 ∷ 50 ∷ 51 ∷ 52 ∷ 53 ∷ 54 ∷ 55 ∷ 56 ∷ 57 ∷ 58 ∷ 59 ∷ 60 ∷ 61
            ∷ 62 ∷ 63 ∷ 64 ∷ 65 ∷ 66 ∷ 67 ∷ 68 ∷ 69 ∷ 70 ∷ 71 ∷ 72 ∷ 73 ∷ 74 ∷ 75 ∷ 76 ∷ 77 ∷ 78
            ∷ 79 ∷ 80 ∷ 81 ∷ 82 ∷ 83 ∷ 84 ∷ 85 ∷ 86 ∷ 87 ∷ 88 ∷ 89 ∷ 90 ∷ 91 ∷ 92 ∷ 93 ∷ 94 ∷ 95
            ∷ 96 ∷ 97 ∷ 98 ∷ 99 ∷ 100 ∷ 101 ∷ 102 ∷ 103 ∷ 104 ∷ 105 ∷ 106 ∷ 107 ∷ 108 ∷ 109 ∷ 110
            ∷ 111 ∷ 112 ∷ 113 ∷ 114 ∷ 115 ∷ 116 ∷ 117 ∷ 118 ∷ 119 ∷ 120 ∷ 121 ∷ 122 ∷ 123 ∷ 124
            ∷ 125 ∷ 126 ∷ 127 ∷ 128 ∷ 129 ∷ 130 ∷ 131 ∷ 132 ∷ 133 ∷ 134 ∷ 135 ∷ 136 ∷ 137 ∷ 138
            ∷ 139 ∷ 140 ∷ 141 ∷ 142 ∷ 143 ∷ 144 ∷ 145 ∷ 146 ∷ 147 ∷ 148 ∷ 149 ∷ 150 ∷ 151 ∷ 152
            ∷ 153 ∷ 154 ∷ 155 ∷ 156 ∷ 157 ∷ 158 ∷ 159 ∷ 160 ∷ 161 ∷ 162 ∷ 163 ∷ 164 ∷ 165 ∷ 166
            ∷ 167 ∷ 168 ∷ 169 ∷ 170 ∷ 171 ∷ 172 ∷ 173 ∷ 174 ∷ 175 ∷ 176 ∷ 177 ∷ 178 ∷ 179 ∷ 180
            ∷ 181 ∷ 182 ∷ 183 ∷ 184 ∷ 185 ∷ 186 ∷ 187 ∷ 188 ∷ 189 ∷ 190 ∷ 191 ∷ 192 ∷ 193 ∷ 194
            ∷ 195 ∷ 196 ∷ 197 ∷ 198 ∷ 199 ∷ 200 ∷ 201 ∷ 202 ∷ 203 ∷ 204 ∷ 205 ∷ 206 ∷ 207 ∷ 208
            ∷ 209 ∷ 210 ∷ 211 ∷ 212 ∷ 213 ∷ 214 ∷ 215 ∷ 216 ∷ 217 ∷ 218 ∷ 219 ∷ 220 ∷ 221 ∷ 222
            ∷ 223 ∷ 224 ∷ 225 ∷ 226 ∷ 227 ∷ 228 ∷ 229 ∷ 230 ∷ 231 ∷ 232 ∷ 233 ∷ 234 ∷ 235 ∷ 236
            ∷ 237 ∷ 238 ∷ 239 ∷ 240 ∷ 229 ∷ 64 ∷ [])
        ∷ encoded_line (
            10 ∷ 251 ∷ 2 ∷ 1 ∷ 3 ∷ 255 ∷ 255 ∷ 255 ∷ 1 ∷ 255 ∷ 243 ∷ 1 ∷ 2 ∷ 3 ∷ 4 ∷ 5 ∷ 6 ∷ 7 ∷ 8
            ∷ 9 ∷ 10 ∷ 11 ∷ 12 ∷ 13 ∷ 14 ∷ 15 ∷ 16 ∷ 17 ∷ 18 ∷ 19 ∷ 20 ∷ 21 ∷ 22 ∷ 23 ∷ 24 ∷ 25 ∷ 26
            ∷ 27 ∷ 28 ∷ 29 ∷ 30 ∷ 31 ∷ 32 ∷ 33 ∷ 34 ∷ 35 ∷ 36 ∷ 37 ∷ 38 ∷ 39 ∷ 40 ∷ 41 ∷ 42 ∷ 43
            ∷ 44 ∷ 45 ∷ 46 ∷ 47 ∷ 48 ∷ 49 ∷ 50 ∷ 51 ∷ 52 ∷ 53 ∷ 54 ∷ 55 ∷ 56 ∷ 57 ∷ 58 ∷ 59 ∷ 60
            ∷ 61 ∷ 62 ∷ 63 ∷ 64 ∷ 65 ∷ 66 ∷ 67 ∷ 68 ∷ 69 ∷ 70 ∷ 71 ∷ 72 ∷ 73 ∷ 74 ∷ 75 ∷ 76 ∷ 77
            ∷ 78 ∷ 79 ∷ 80 ∷ 81 ∷ 82 ∷ 83 ∷ 84 ∷ 85 ∷ 86 ∷ 87 ∷ 88 ∷ 89 ∷ 90 ∷ 91 ∷ 92 ∷ 93 ∷ 94
            ∷ 95 ∷ 96 ∷ 97 ∷ 98 ∷ 99 ∷ 100 ∷ 101 ∷ 102 ∷ 103 ∷ 104 ∷ 105 ∷ 106 ∷ 107 ∷ 108 ∷ 109
            ∷ 110 ∷ 111 ∷ 112 ∷ 113 ∷ 114 ∷ 115 ∷ 116 ∷ 117 ∷ 118 ∷ 119 ∷ 120 ∷ 121 ∷ 122 ∷ 123
            ∷ 124 ∷ 125 ∷ 126 ∷ 127 ∷ 128 ∷ 129 ∷ 130 ∷ 131 ∷ 132 ∷ 133 ∷ 134 ∷ 135 ∷ 136 ∷ 137
            ∷ 138 ∷ 139 ∷ 140 ∷ 141 ∷ 142 ∷ 143 ∷ 144 ∷ 145 ∷ 146 ∷ 147 ∷ 148 ∷ 149 ∷ 150 ∷ 151
            ∷ 152 ∷ 153 ∷ 154 ∷ 155 ∷ 156 ∷ 157 ∷ 158 ∷ 159 ∷ 160 ∷ 161 ∷ 162 ∷ 163 ∷ 164 ∷ 165
            ∷ 166 ∷ 167 ∷ 168 ∷ 169 ∷ 170 ∷ 171 ∷ 172 ∷ 173 ∷ 174 ∷ 175 ∷ 176 ∷ 177 ∷ 178 ∷ 179
            ∷ 180 ∷ 181 ∷ 182 ∷ 183 ∷ 184 ∷ 185 ∷ 186 ∷ 187 ∷ 188 ∷ 189 ∷ 190 ∷ 191 ∷ 192 ∷ 193
            ∷ 194 ∷ 195 ∷ 196 ∷ 197 ∷ 198 ∷ 199 ∷ 200 ∷ 201 ∷ 202 ∷ 203 ∷ 204 ∷ 205 ∷ 206 ∷ 207
            ∷ 208 ∷ 209 ∷ 210 ∷ 211 ∷ 212 ∷ 213 ∷ 214 ∷ 215 ∷ 216 ∷ 217 ∷ 218 ∷ 219 ∷ 220 ∷ 221
            ∷ 222 ∷ 223 ∷ 224 ∷ 225 ∷ 226 ∷ 227 ∷ 228 ∷ 229 ∷ 230 ∷ 231 ∷ 232 ∷ 233 ∷ 234 ∷ 235
            ∷ 236 ∷ 237 ∷ 238 ∷ 239 ∷ 240 ∷ 229 ∷ 64 ∷ 0 ∷ [])
        ∷ [])
unfolding emit_vector emit_built emit_encoded print_hex frame_build frame_fill store_crc
    store_payload crc_loop crc_byte crc_bits crc_bit crc16 cobs_encode encode_step encode_loop
    encode_finish close_run load read write
max_payload_vector = refl

small_command-IsPacket : IsPacket small_command
small_command-IsPacket = record {
  src_byte = omega arith;
  dst_byte = omega arith;
  flags_byte = omega arith;
  session_byte = omega arith;
  seq_word = omega arith;
  family_byte = omega arith;
  type_byte = omega arith;
  payload_bytes = omega arith;
  payload_fits = omega arith;
}

emit_vector_prints_example :
    emit_vector frame encoded 1 4 1 5 4660 1 66 (payload_ptr small_command.payload) 3
    ≡ done (vector_lines small_command)
emit_vector_prints_example =
    emit_vector_prints small_command (payload_ptr small_command.payload) frame encoded
      small_command-IsPacket ([], refl) refl refl
